-- ===== src/Rcu/State.antt =====
-- The data of fastsmr/fastsmr.h, fastsmr/rcustats.h and fastsmr/rcuscan.c and fastsmr/smrscan.c, and
-- the globals of the three .c files.
use atomic_ptr_plus.Base.{ℕ, List, [], ◌∷◌, Bool, true, false, ◌==◌, if◌then◌else◌}
use atomic_ptr_plus.Fifo.{Ptr}

-- rcu_defer_state_t
pub data DeferState : Type 0 where
  live pass1 smr pass2 : DeferState

-- smr_reftype_t; `other` is any value that the enumeration does not name.
pub data RefType : Type 0 where
  fifo trace other : RefType

-- rcu_defer_t without its `next`, which the queues keep.
pub record Defer : Type 0 where
  pub func : Ptr
  pub arg : Ptr
  pub forrefs : Ptr
  pub sequence : ℕ  -- unsigned int
  pub psequence : Ptr
  pub type : RefType
  pub state : DeferState

-- The last quiescent state seen of a node.
pub data NodeState : Type 0 where
  state_none state_explicit state_norun state_idle : NodeState

-- rcu_node_t
pub record RcuNode : Type 0 where
  pub qhandle : ℕ
  pub last_qcount : ℕ
  pub queue0 : List Ptr
  pub queue1 : List Ptr
  pub last_time : ℕ
  pub state : NodeState

-- smr_node_t. `ndx` counts the hazard pointers in use: none, or the pair.
pub record SmrNode : Type 0 where
  pub tid : ℕ
  pub qhandle : ℕ
  pub ndx : ℕ
  pub hcount : ℕ
  pub hptr0 : Ptr
  pub hptr1 : Ptr

-- rcu_stats_t, without the field that nothing writes (`qwakeups`) and the copied one. The counters
-- are unbounded here.
pub record Stats : Type 0 where
  pub qpoints : ℕ
  pub qexplicit : ℕ
  pub norun : ℕ
  pub qwaits : ℕ
  pub wwaits : ℕ
  pub qtime : ℕ
  pub wtime : ℕ
  pub defers : ℕ
  pub undefers : ℕ
  pub defersigs : ℕ
  pub idle : ℕ
  pub smrempty : ℕ
  pub smrfull : ℕ
  pub smrpartial : ℕ

-- The globals. `nodes` is the ring of RCU nodes, read along `next` from `current_node`, and
-- `smr_nodes` the list `smr_node_queue`. `hptr` is the part in use of the array of that name, so
-- `hcount` is its length.
pub record World : Type 0 where
  pub heap : Ptr → Defer
  pub sequences : Ptr → ℕ
  pub nodes : List RcuNode
  pub smr_nodes : List SmrNode
  pub smr_queue : List Ptr
  pub ready_queue : List Ptr
  pub current : ℕ  -- unsigned int
  pub smr_count : ℕ
  pub hptr : List Ptr
  pub hsize : ℕ
  pub deferred_work : ℕ
  pub rcu_stop : Bool
  pub stats : Stats

abbrev pub is_pass1 : DeferState → Bool
is_pass1 pass1 = true
is_pass1 _ = false

abbrev pub is_nil {ℓ} : {A : Type ℓ} → List A → Bool
is_nil [] = true
is_nil (_ ∷ _) = false

abbrev pub update {ℓ} : {A : Type ℓ} → (Ptr → A) → Ptr → A → Ptr → A
update f p v q = if p == q then v else f q

-- `work->state = state`
abbrev pub set_state : Ptr → DeferState → World → World
set_state work state w = record w {
  heap = update w.heap work (record (w.heap work) { state = state });
}

-- `work->sequence = sequence`
abbrev pub set_sequence : Ptr → ℕ → World → World
set_sequence work sequence w = record w {
  heap = update w.heap work (record (w.heap work) { sequence = sequence });
}
