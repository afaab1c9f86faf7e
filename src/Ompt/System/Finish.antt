-- ===== src/Ompt/System/Finish.antt =====
-- The end of the tool in src/ompt/ompt.cc: it is finalized once and its library is closed once,
-- whatever happens before and behind.
use xkomp.Prelude.{
  ℕ, suc, ◌≡◌, refl, sym, ap, fun_ext, >>=-assoc, subst, ◌∙◌, true, false, not, Option, none, some,
  List, [], ◌∷◌, ◌++◌, if_true, if_false, ◌>>=◌, Returns, Returns->>=, ◌⊎◌, Bool-cases, inl, inr,
}
use xkomp.Ompt.{Bridge, Thread, ToolCode}
use xkomp.Ompt.Threads.{end_thread, is_null}
use xkomp.Ompt.Lifecycle.{
  do_finalize, finish, leave, finalize_tool, close_library, end_initial_task,
}
use xkomp.Ompt.System.{Action, run, act, finalize}
use xkomp.Ompt.System.View.{View, view, suc_if, count, is_closed}
use xkomp.Ompt.System.Preserve.{run-Keeps, end_thread-Keeps, end_initial_task-Keeps}

-- The tool `t` is active: it has not been finalized, and the libraries that are open are the one it
-- came from, if any.
abbrev pub Active : ℕ → View → Type 0
Active t v =
    (v.done ≡ false)
    × (v.enabled ≡ true)
    × (v.tool ≡ some t)
    × (v.finals ≡ 0)
    × (v.opens ≡ suc_if (not (is_null v.dlhandle)) v.closes)

-- It has been finalized once, if it has a function for that, and no library is open.
abbrev pub Ended : ToolCode → ℕ → View → Type 0
Ended T t v =
    (v.done ≡ true)
    × (v.enabled ≡ false)
    × (v.dlhandle ≡ none)
    × (v.finals ≡ suc_if (T.finalizes t) 0)
    × (v.opens ≡ v.closes)

-- Between the flag and the closing of the library.
abbrev Leaving : ℕ → ℕ → View → Type 0
Leaving t n v =
    (v.done ≡ true)
    × (v.tool ≡ some t)
    × (v.finals ≡ n)
    × (v.opens ≡ suc_if (not (is_null v.dlhandle)) v.closes)

run-append :
    (T : ToolCode) (before after : List Action) (s : Bridge)
    → run T (before ++ after) s ≡ (run T before s >>= run T after)
unfolding run
run-append T [] after s = refl
run-append T (a ∷ rest) after s =
    ap (λ k. act T a s >>= k) (fun_ext (run-append T rest after))
    ∙ >>=-assoc (act T a s) (run T rest) (run T after)

module _ (T : ToolCode) (i t : ℕ) where
  close_library-Ended :
      (o : Option ℕ) (s : Bridge)
      → s.dlhandle ≡ o
      → s.enabled ≡ false
      → Leaving t (suc_if (T.finalizes t) 0) (view i s)
      → Ended T t (view i (close_library o s))
  unfolding count
  close_library-Ended none s handle e h = (
    h.0,
    e,
    handle,
    h.2,
    h.3 ∙ ap (λ o. suc_if (not (is_null o)) (count is_closed s.acts)) handle,
  )
  close_library-Ended (some l) s handle e h =
      (h.0, e, refl, h.2, h.3 ∙ ap (λ o. suc_if (not (is_null o)) (count is_closed s.acts)) handle)

  finalize_tool-Leaving :
      (s : Bridge)
      → Leaving t 0 (view i s)
      → Leaving t (suc_if (T.finalizes t) 0) (view i (finalize_tool T s.tool s))
  unfolding count
  finalize_tool-Leaving s h =
      subst (λ o. Leaving t (suc_if (T.finalizes t) 0) (view i (finalize_tool T o s))) (sym h.1)
        (elim (Bool-cases (T.finalizes t)) [
          | inl e ↦ rw e (h.0, h.1, ap suc h.2, h.3)
          | inr e ↦ rw e h
        ])

  finalize_tool-enabled : (o : Option ℕ) (s : Bridge) → (finalize_tool T o s).enabled ≡ s.enabled
  finalize_tool-enabled none s = refl
  finalize_tool-enabled (some r) s = elim (Bool-cases (T.finalizes r)) [
    | inl e ↦ rw e refl
    | inr e ↦ rw e refl
  ]

  leave-Ended : (s : Bridge) → Leaving t 0 (view i s) → Ended T t (view i (leave T s))
  leave-Ended s h =
      let s_off : Bridge = record s { enabled = false } in
      let s_tool = finalize_tool T s.tool s_off in
      close_library-Ended s_tool.dlhandle s_tool refl (finalize_tool-enabled s.tool s_off)
        (finalize_tool-Leaving s_off h)

  -- The other calls do not change the fields of a stage.
  finish-Ended :
      (me : ℕ) (thread : Option Thread) (s : Bridge)
      → s.enabled ≡ true
      → Leaving t 0 (view i s)
      → Ended T t (view i (finish T me thread s))
  unfolding finish
  finish-Ended me thread s e h =
      let s_task = end_initial_task T me thread s in
      subst (λ r. Ended T t (view i r)) (sym (if_true s.enabled _ s e))
        (leave-Ended (end_thread T me s_task) (
          end_thread-Keeps T i (Leaving t 0) (λ me k v b p. p) (λ me b v p. p) (λ me v b p. p) me
            s_task
            (end_initial_task-Keeps T i (Leaving t 0) (λ me k v b p. p) (λ me b v p. p)
              (λ me v b p. p) me thread s h)))

  pub do_finalize-Ended :
      (me : ℕ) (thread : Option Thread) (s : Bridge)
      → Active t (view i s) ⊎ Ended T t (view i s)
      → Ended T t (view i (do_finalize T me thread s))
  unfolding do_finalize
  do_finalize-Ended me thread s (inl h) =
      subst (λ r. Ended T t (view i r)) (sym (if_false s.done s _ (h.0)))
        (finish-Ended me thread (record s { done = true }) (h.1) (refl, h.2, h.3, h.4))
  do_finalize-Ended me thread s (inr h) =
      subst (λ r. Ended T t (view i r)) (sym (if_true s.done s _ (h.0))) h

  run-Stage :
      (actions : List Action) (s : Bridge)
      → Active t (view i s) ⊎ Ended T t (view i s)
      → Returns (λ r. Active t (view i r) ⊎ Ended T t (view i r)) (run T actions s)
  run-Stage =
      run-Keeps T i (λ v. Active t v ⊎ Ended T t v) (λ me k v b p. p) (λ me b v p. p)
        (λ me v b p. p) (λ me thread s h. inr (do_finalize-Ended me thread s h))

  run-Ended :
      (actions : List Action) (s : Bridge)
      → Ended T t (view i s)
      → Returns (λ r. Ended T t (view i r)) (run T actions s)
  run-Ended =
      run-Keeps T i (Ended T t) (λ me k v b p. p) (λ me b v p. p) (λ me v b p. p)
        (λ me thread s h. do_finalize-Ended me thread s (inr h))

  -- Where the tool is active, a run in which it is finalized at some point, by any thread, returns,
  -- and behind it the tool is not active, has been finalized once, if it has a function for that,
  -- and as many libraries have been closed as opened.
  pub run_finalize-Ended :
      (before after : List Action) (me : ℕ) (thread : Option Thread) (s : Bridge)
      → Active t (view i s)
      → Returns (λ r. Ended T t (view i r)) (run T (before ++ (finalize me thread ∷ after)) s)
  unfolding run act
  run_finalize-Ended before after me thread s h =
      subst (Returns (λ r. Ended T t (view i r)))
        (sym (run-append T before (finalize me thread ∷ after) s))
        (Returns->>= (λ r. Ended T t (view i r)) (run T before s)
          (run T (finalize me thread ∷ after)) (run-Stage before s (inl h))
          (λ r st. run-Ended after (do_finalize T me thread r) (do_finalize-Ended me thread r st)))
