-- ===== src/Ompt/System/Balance.antt =====
-- The starts and ends of threads that the bridge of src/ompt/ompt.cc tells the tool of.
use xkomp.Prelude.{
  ==_swap, ℕ, suc, ◌≡◌, ap, subst, ◌∙◌, ==_iff, Bool, true, false, Option, List, ◌==◌, Returns,
  Bool-cases, inl, inr,
}
use xkomp.Ompt.{Bridge, ToolCode, thread_begin_args, thread_end_args, thread_datum}
use xkomp.Ompt.System.{Action, run}
use xkomp.Ompt.System.View.{View, view, tell, registered, suc_if}
use xkomp.Ompt.System.Quiet.{begin_view, initial_view}
use xkomp.Ompt.System.Preserve.{run-KeepsAll}

-- The tool has the functions for the start and the end of threads, and has been told of one start
-- more than of ends of the thread `i` where it runs, and of as many otherwise.
pub record Balanced (i : ℕ) (v : View) : Type 0 where
  pub begin_registered : registered v.callbacks 1 ≡ true
  pub end_registered : registered v.callbacks 2 ≡ true
  pub balance : v.begins ≡ suc_if (v.tls i).thread_begun v.ends

module _ (i : ℕ) where
  at_me :
      (me : ℕ) (v : View)
      → (i == me) ≡ true
      → Balanced i v
      → v.begins ≡ suc_if (v.tls me).thread_begun v.ends
  at_me me v e h =
      subst (λ k. v.begins ≡ suc_if (v.tls k).thread_begun v.ends) ((==_iff i me).0 e) h.balance

  keeps_begin :
      (me kind : ℕ) (v : View)
      → (v.tls me).thread_begun ≡ false
      → Balanced i v
      → Balanced i (begin_view me true (tell i 1 (thread_begin_args kind (thread_datum me)) v))
  keeps_begin me kind v new h = record {
    begin_registered = h.begin_registered;
    end_registered = h.end_registered;
    balance = elim (Bool-cases (i == me)) [
      | inl e ↦
          rw (h.begin_registered, e, ==_swap i me true e)
            (ap suc (at_me me v e h ∙ ap (λ b. suc_if b v.ends) new))
      | inr e ↦ rw (h.begin_registered, e, ==_swap i me false e) h.balance
    ];
  }

  keeps_initial : (me : ℕ) (b : Bool) (v : View) → Balanced i v → Balanced i (initial_view me b v)
  keeps_initial me b v h = record {
    begin_registered = h.begin_registered;
    end_registered = h.end_registered;
    balance = elim (Bool-cases (i == me)) [
      | inl e ↦ rw e (at_me me v e h)
      | inr e ↦ rw e h.balance
    ];
  }

  keeps_end :
      (me : ℕ) (v : View)
      → (v.tls me).thread_begun ≡ true
      → Balanced i v
      → Balanced i (begin_view me false (tell i 2 (thread_end_args (thread_datum me)) v))
  keeps_end me v old h = record {
    begin_registered = h.begin_registered;
    end_registered = h.end_registered;
    balance = elim (Bool-cases (i == me)) [
      | inl e ↦
          rw (h.end_registered, e, ==_swap i me true e)
            (at_me me v e h ∙ ap (λ b. suc_if b v.ends) old)
      | inr e ↦ rw (h.end_registered, e, ==_swap i me false e) h.balance
    ];
  }

  keeps_life :
      (v : View) (enabled done : Bool) (dlhandle : Option ℕ) (finals closes : ℕ)
      → Balanced i v
      → Balanced i (record v {
        enabled = enabled;
        done = done;
        dlhandle = dlhandle;
        finals = finals;
        closes = closes;
      })
  keeps_life v enabled done dlhandle finals closes h = record {
    begin_registered = h.begin_registered;
    end_registered = h.end_registered;
    balance = h.balance;
  }

  -- Where the tool has functions for the start and the end of threads and the calls told so far
  -- balance, every run returns and they balance behind it: one start more than ends for a thread
  -- that runs, as many for one that does not.
  pub run-Balanced :
      (T : ToolCode) (actions : List Action) (s : Bridge)
      → Balanced i (view i s)
      → Returns (λ s'. Balanced i (view i s')) (run T actions s)
  run-Balanced T actions s h =
      run-KeepsAll T i (Balanced i) keeps_begin keeps_initial keeps_end keeps_life actions s h
