-- ===== src/Env.antt =====
-- What the kernel calls and does not implement: libfdr's lists and trees, the kernel threads'
-- semaphores and the machine simulator. The kernel takes an `Env` as a parameter.
-- A list or tree is seen by its contents in order, a semaphore by its value.
pub mod Reference
use cs170lab.Prelude.{
  ℕ, suc, ◌+◌, ◌≡◌, Bool, true, false, ◌&&◌, Option, none, some, List, [], ◌∷◌, ◌++◌, ltb, ◌==◌,
  if◌then◌else◌, update,
}
use cs170lab.Prelude.Int.{ℤ}
use cs170lab.Structs.{Ptr, Regs, Mem, Entry, Tree, Pcb}

-- dllist.h: `first` is `dll_val(dll_first(l))`, and `delete_first` is
-- `dll_delete_node(dll_first(l))`. An empty list has no first value.
pub record Dllist : Type 0 where
  pub append : List Ptr → Ptr → List Ptr
  pub is_empty : List Ptr → Bool
  pub first : List Ptr → Option Ptr
  pub delete_first : List Ptr → List Ptr
  pub append_lem : (l : List Ptr) (v : Ptr) → append l v ≡ l ++ v ∷ []
  pub is_empty-nil : is_empty [] ≡ true
  pub is_empty-cons : (v : Ptr) (l : List Ptr) → is_empty (v ∷ l) ≡ false
  pub first-nil : first [] ≡ none
  pub first-cons : (v : Ptr) (l : List Ptr) → first (v ∷ l) ≡ some v
  pub delete_first-cons : (v : Ptr) (l : List Ptr) → delete_first (v ∷ l) ≡ l

-- The first entry with the key `k`.
abbrev pub entry : Tree → ℕ → Option Entry
entry [] k = none
entry ((j, v) ∷ t) k = if j == k then some (j, v) else entry t k

-- The tree less the entry `n`.
abbrev pub without : Tree → Entry → Tree
without [] n = []
without ((j, v) ∷ t) (k, w) = if (j == k) && (v == w) then t else (j, v) ∷ without t (k, w)

-- The tree with an entry in its place by key.
abbrev pub placed : Tree → ℕ → ℕ → Tree
placed [] k v = (k, v) ∷ []
placed ((j, w) ∷ t) k v = if ltb k j then (k, v) ∷ (j, w) ∷ t else (j, w) ∷ placed t k v

abbrev pub head_entry : Tree → Option Entry
head_entry [] = none
head_entry (n ∷ t) = some n

-- jrb.h: a node of a tree is seen by its key and its value.
pub record Jrb : Type 0 where
  pub insert_int : Tree → ℕ → ℕ → Tree
  pub find_int : Tree → ℕ → Option Entry
  pub delete_node : Tree → Entry → Tree
  pub is_empty : Tree → Bool
  pub first : Tree → Option Entry
  pub insert_int_lem : (t : Tree) (k v : ℕ) → entry t k ≡ none → insert_int t k v ≡ placed t k v
  pub find_int_lem : (t : Tree) (k : ℕ) → find_int t k ≡ entry t k
  pub delete_node_lem : (t : Tree) (n : Entry) → delete_node t n ≡ without t n
  pub is_empty-nil : is_empty [] ≡ true
  pub is_empty-cons : (n : Entry) (t : Tree) → is_empty (n ∷ t) ≡ false
  pub first_lem : (t : Tree) → first t ≡ head_entry t

-- kt.h: counting semaphores, by their values. `p` is `P_kt_sem`, and `none` means that the caller
-- has to wait.
pub record Kt : Type 0 where
  pub make : (Ptr → ℕ) → Ptr → ℕ → Ptr → ℕ
  pub v : (Ptr → ℕ) → Ptr → Ptr → ℕ
  pub p : (Ptr → ℕ) → Ptr → Option (Ptr → ℕ)
  pub make_lem : (f : Ptr → ℕ) (s : Ptr) (n : ℕ) → make f s n ≡ update f s n
  pub v_lem : (f : Ptr → ℕ) (s : Ptr) → v f s ≡ update f s (f s + 1)
  pub p-zero : (f : Ptr → ℕ) (s : Ptr) → f s ≡ 0 → p f s ≡ none
  pub p-suc : (f : Ptr → ℕ) (s : Ptr) (n : ℕ) → f s ≡ suc n → p f s ≡ some (update f s n)

-- simulator.h. `load_user_program` reads a file into memory at `User_Base`, and returns the end of
-- the program or -1. `console_read` gives the byte of the n-th call.
pub record Simulator : Type 0 where
  pub load_user_program : List ℕ → ℕ → Mem → ℤ × Mem
  pub init_user_args : Regs → List (List ℕ) → ℕ → Mem → Regs × Mem
  pub stat_buf_fill : ℤ → ℕ → Mem → Mem
  pub ioctl_console_fill : ℤ → Mem → Mem
  pub console_read : ℕ → ℕ

-- `uninit_pcb` and `uninit_buffer` are what `malloc` leaves in a PCB and in a pipe's buffer.
pub record Env : Type 0 where
  pub dll : Dllist
  pub jrb : Jrb
  pub kt : Kt
  pub sim : Simulator
  pub uninit_pcb : Pcb
  pub uninit_buffer : ℕ → ℕ
