-- ===== src/Threads/Loading.antt =====
-- execve, with the loops over its arguments and the loader.
use cs170lab.Prelude.{ℕ, zero, suc, ◌+◌, ◌*◌, List, [], ◌∷◌}
use cs170lab.Prelude.Int.{ℤ, pos, ◌+ℤ◌, ◌==ℤ◌}
use cs170lab.Structs.{Ptr}
use cs170lab.Env.{Env}
use cs170lab.Kernel.{Cmd}
use cs170lab.Memory.{load_word, load_string}
use cs170lab.Loader.{perform_execve}
use cs170lab.Syscall.Exec.{count_args, copy_args, do_execve}
use cs170lab.Threads.{Nobody}
use cs170lab.Threads.Calls.{Good, rules}
use cs170lab.Threads.Transfers.{Rest}
use cs170lab.Threads.Frames.{Moves-put, ready_behind, Follows-if_cmd, Follows-execve_return}

module _ (env : Env) (p : Ptr) where
  load_word-Follows :
      (a : ℤ) (k : ℤ → Cmd) → ((v : ℤ) → Rest env p (k v)) → Rest env p (load_word a k)
  unfolding load_word
  load_word-Follows a k r h0 h s = search (rules, r, tt) depth 20 fits 2000

  load_string-Follows :
      (fuel : ℕ) (a : ℤ) (k : List ℕ → Cmd)
      → ((s : List ℕ) → Rest env p (k s))
      → Rest env p (load_string fuel a k)
  unfolding load_string
  load_string-Follows zero a k r h0 h s = tt
  load_string-Follows (suc fuel) a k r h0 h s =
      search
        (
          rules,
          r,
          load_string-Follows fuel (a +ℤ pos 1) (λ t. k (h.main_memory a ∷ t))
              (λ t. r (h.main_memory a ∷ t)),
          tt,
        )
        depth 20 fits 2000

  count_args-Follows :
      (fuel : ℕ) (a : ℤ) (n : ℕ) (k : ℕ → Cmd)
      → ((m : ℕ) → Rest env p (k m))
      → Rest env p (count_args fuel a n k)
  unfolding count_args
  count_args-Follows zero a n k r h0 h s = tt
  count_args-Follows (suc fuel) a n k r h0 h s =
      load_word-Follows (a +ℤ pos (4 * n)) _
        (λ v h0 h s.
          Follows-if_cmd Nobody (ready_behind p) h0 (v ==ℤ pos 0) (k n)
            (count_args fuel a (n + 1) k) h (λ e. r n h0 h s)
            (λ e. count_args-Follows fuel a (n + 1) k r h0 h s))
        h0 h s

  copy_args-Follows :
      (n : ℕ) (a : ℤ) (base : ℕ) (k : List (List ℕ) → Cmd)
      → ((l : List (List ℕ)) → Rest env p (k l))
      → Rest env p (copy_args n a base k)
  unfolding copy_args
  copy_args-Follows zero a base k r = r []
  copy_args-Follows (suc n) a base k r = load_word-Follows a _ λ v.
      load_string-Follows _ (v +ℤ pos base) _
        λ s. copy_args-Follows n (a +ℤ pos 4) base (λ l. k (s ∷ l)) (λ l. r (s ∷ l))

  -- The loader ends with 0, or does not end.
  pub perform_execve-zero :
      (name : List ℕ) (argv : List (List ℕ)) (k : ℤ → Cmd)
      → Rest env p (k (pos 0))
      → Rest env p (perform_execve env p name argv k)
  unfolding perform_execve
  perform_execve-zero name argv k r h0 h s = search (rules, r, Moves-put, tt) depth 30 fits 3000

  perform_execve-Follows :
      (name : List ℕ) (argv : List (List ℕ)) (k : ℤ → Cmd)
      → ((v : ℤ) → Rest env p (k v))
      → Rest env p (perform_execve env p name argv k)
  perform_execve-Follows name argv k r = perform_execve-zero name argv k (r (pos 0))

  pub do_execve-Good : Good env p (do_execve env p)
  unfolding do_execve
  do_execve-Good h =
      search
        (
          rules, count_args-Follows, load_string-Follows, copy_args-Follows, perform_execve-Follows,
          Follows-execve_return,
        )
        depth 30 fits 3000
