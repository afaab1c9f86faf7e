-- ===== src/Ompt/System/Connect.antt =====
-- The start of the tool in src/ompt/ompt.cc: the search for it leaves open the library of the tool
-- that is found and no other, and none where no tool is found or where it declines.
use xkomp.Prelude.{
  ℕ, suc, ◌≡◌, refl, sym, ap, subst, ◌∙◌, Bool, true, false, not, Option, none, some, List, [], ◌∷◌,
  ◌++◌, if_both, Returns, Returns-Allows, Returns-Allows-both,
}
use Prim.Native.String.{String}
use xkomp.Ompt.{Bridge, Thread, ToolCode, opened, initialized, fresh_bridge, set_callback}
use xkomp.Ompt.Discovery.{
  Loader, discover, load_tools, try_handle, started, joined, did, or_else, listed, disabled,
}
use xkomp.Ompt.Threads.{is_null}
use xkomp.Ompt.Lifecycle.{
  bridge_initialize, close_library, set_up, initialize_tool, activate, registers, register_all,
}
use xkomp.Ompt.System.{Action, run, finalize}
use xkomp.Ompt.System.View.{View, view, suc_if, count, registered}
use xkomp.Ompt.System.Balance.{Balanced, run-Balanced}
use xkomp.Ompt.System.Running.{Seen, see_all, Follows, run-Follows}
use xkomp.Ompt.System.Finish.{Active, Ended, run_finalize-Ended}

-- Nothing has been told to a tool yet, and the libraries that are open are the noted one, if any.
abbrev pub Unstarted : View → Type 0
Unstarted v =
    (v.done ≡ false)
    × (v.enabled ≡ false)
    × (v.finals ≡ 0)
    × (v.opens ≡ suc_if (not (is_null v.dlhandle)) v.closes)
    × ((v.begins ≡ 0) × (v.ends ≡ 0) × ((i : ℕ) → (v.tls i).thread_begun ≡ false))

-- A search that finds no tool leaves no library open.
abbrev Searched : Option ℕ → View → Type 0
Searched none v = Unstarted v × (v.dlhandle ≡ none)
Searched (some t) v = Unstarted v

-- What `bridge_initialize` returns, with the state behind it.
abbrev pub Connected : ℕ → Bool × Bridge → Type 0
Connected i (true, s) =
    ((t : ℕ) × Active t (view i s))
    × ((view i s).begins ≡ 0)
    × ((view i s).ends ≡ 0)
    × ((s.tls i).thread_begun ≡ false)
Connected i (false, s) =
    (s.enabled ≡ false)
    × (s.tool ≡ none)
    × (s.dlhandle ≡ none)
    × ((view i s).opens ≡ (view i s).closes)

-- A process that starts, behind the call that sets the tool up.
abbrev pub at_start : Seen
at_start = record { up = false; over = false; on = true }

-- The tool has been told of one start more than of ends of the thread where it runs, and of as many
-- otherwise.
abbrev pub ToldOf : Bool → View → Type 0
ToldOf up v = v.begins ≡ suc_if up v.ends

module _ (i : ℕ) where
  all_closed : (s : Bridge) → Searched none (view i s) → (view i s).opens ≡ (view i s).closes
  all_closed s p = p.0.3 ∙ ap (λ o. suc_if (not (is_null o)) (view i s).closes) p.1

  started-Searched :
      (h : ℕ) (o : Option ℕ) (s : Bridge)
      → Searched none (view i s)
      → Searched ((started h o (did (opened h) s)).0) (view i ((started h o (did (opened h) s)).1))
  unfolding count
  started-Searched h none s p = (
    (
      p.0.0,
      p.0.1,
      p.0.2,
      ap suc (all_closed s p)
          ∙ sym (ap (λ o. suc_if (not (is_null o)) (suc (view i s).closes)) p.1),
      p.0.4,
    ),
    p.1,
  )
  started-Searched h (some r) s p = (p.0.0, p.0.1, p.0.2, ap suc (all_closed s p), p.0.4)

  try_handle-Searched :
      (L : Loader) (h : Option ℕ) (s : Bridge)
      → Searched none (view i s)
      → Searched ((try_handle L h s).0) (view i ((try_handle L h s).1))
  try_handle-Searched L none s p = p
  try_handle-Searched L (some h) s p = started-Searched h (joined (L.start h)) s p

  or_else-Searched :
      (r : Option ℕ × Bridge) (next : Bridge → Option ℕ × Bridge)
      → Searched r.0 (view i r.1)
      → ((s : Bridge) → Searched none (view i s) → Searched (next s).0 (view i (next s).1))
      → Searched (or_else r next).0 (view i (or_else r next).1)
  or_else-Searched (none, s) next p keeps = keeps s p
  or_else-Searched (some t, s) next p keeps = p

  load_tools-Searched :
      (L : Loader) (files : List String) (s : Bridge)
      → Searched none (view i s)
      → Searched (load_tools L files s).0 (view i (load_tools L files s).1)
  unfolding load_tools
  load_tools-Searched L [] s p = p
  load_tools-Searched L (f ∷ files) s p =
      or_else-Searched (try_handle L (L.dlopen f) s) (load_tools L files)
        (try_handle-Searched L (L.dlopen f) s p) (load_tools-Searched L files)

  linked-Searched : (o : Option ℕ) (s : Bridge) → Searched none (view i s) → Searched o (view i s)
  linked-Searched none s p = p
  linked-Searched (some t) s p = p.0

  discover-Searched :
      (L : Loader) (s : Bridge)
      → Searched none (view i s)
      → Searched (discover L s).0 (view i (discover L s).1)
  unfolding discover
  discover-Searched L s p =
      if_both (λ (r : Option ℕ × Bridge). Searched r.0 (view i r.1)) (disabled L.omp_tool) _ _ p
        (or_else-Searched (joined L.linked, s) (load_tools L (listed L.omp_tool_libraries L.copies))
          (linked-Searched (joined L.linked) s p)
          (load_tools-Searched L (listed L.omp_tool_libraries L.copies)))

  Ready : ℕ → Bridge → Type 0
  Ready t s = Unstarted (view i s) × (s.tool ≡ some t)

  registers-Ready : (t : ℕ) (rs : List (ℕ × ℕ)) (s : Bridge) → Ready t s → Ready t (registers rs s)
  unfolding registers set_callback Ready
  registers-Ready t [] s p = p
  registers-Ready t ((which, f) ∷ rs) s p =
      registers-Ready t rs ((set_callback which f s).1)
        (if_both (λ (r : ℕ × Bridge). Ready t r.1) _ _ _ p p)

  declined-Connected :
      (t : ℕ) (o : Option ℕ) (s : Bridge)
      → s.dlhandle ≡ o
      → Ready t s
      → Connected i (false, record (close_library o s) { tool = none })
  unfolding count Ready
  declined-Connected t none s e p =
      (p.0.1, refl, e, p.0.3 ∙ ap (λ o. suc_if (not (is_null o)) (view i s).closes) e)
  declined-Connected t (some l) s e p =
      (p.0.1, refl, refl, p.0.3 ∙ ap (λ o. suc_if (not (is_null o)) (view i s).closes) e)

  activate-Connected : (t : ℕ) (b : Bool) (s : Bridge) → Ready t s → Connected i (activate b s)
  unfolding count Ready register_all activate
  activate-Connected t true s p =
      ((t, (p.0.0, refl, p.1, p.0.2, p.0.3)), p.0.4.0, p.0.4.1, p.0.4.2 i)
  activate-Connected t false s p = declined-Connected t s.dlhandle s refl p

  initialize_tool-Connected :
      (T : ToolCode) (t : ℕ) (o : Option (List (ℕ × ℕ) × Bool)) (s : Bridge)
      → Ready t s
      → Connected i (initialize_tool T t o s)
  unfolding count Ready initialize_tool
  initialize_tool-Connected T t none s p = activate-Connected t true s p
  initialize_tool-Connected T t (some (rs, b)) s p =
      activate-Connected t b (registers rs (did (initialized t) s))
        (registers-Ready t rs (did (initialized t) s) p)

  set_up-Connected :
      (T : ToolCode) (r : Option ℕ × Bridge) → Searched r.0 (view i r.1) → Connected i (set_up T r)
  unfolding Ready
  set_up-Connected T (none, s) p = (p.0.1, refl, p.1, all_closed s p)
  set_up-Connected T (some t, s) p =
      initialize_tool-Connected T t (T.initialize t) (record s { tool = some t }) (p, refl)

  -- In a process that starts, where the bridge returns 1 a tool is active, no thread has been
  -- reported, and the open libraries are the one it came from, if any; where it returns 0 no tool
  -- is noted and as many libraries have been closed as opened.
  pub bridge_initialize-Connected :
      (T : ToolCode) (L : Loader) → Connected i (bridge_initialize T L fresh_bridge)
  unfolding bridge_initialize count
  bridge_initialize-Connected T L =
      set_up-Connected T (discover L fresh_bridge)
        (discover-Searched L fresh_bridge ((refl, refl, refl, refl, (refl, refl, λ j. refl)), refl))

  -- From the start of a process in which the bridge returns 1 and the tool has registered functions
  -- for the start and the end of threads, every run returns, and behind it the tool has been told of
  -- one start more than of ends of each thread that runs, and of as many of one that does not. A
  -- thread runs from a start on, in no team or as another than the first member of one, until such a
  -- stop, or until it makes the first call that ends the tool.
  pub connect-run-Balanced :
      (T : ToolCode) (L : Loader) (actions : List Action) (s : Bridge)
      → bridge_initialize T L fresh_bridge ≡ (true, s)
      → registered s.callbacks 1 ≡ true
      → registered s.callbacks 2 ≡ true
      → Returns (λ r. ToldOf (see_all i actions at_start).up (view i r)) (run T actions s)
  connect-run-Balanced T L actions s h r1 r2 =
      let c : Connected i (true, s) = subst (Connected i) h (bridge_initialize-Connected T L) in
      let x = see_all i actions at_start in
      Returns-Allows-both (λ r. Balanced i (view i r)) (λ r. Follows i x (view i r))
        (λ r. ToldOf x.up (view i r)) (run T actions s)
        (run-Balanced i T actions s (record {
          begin_registered = r1;
          end_registered = r2;
          balance = c.1 ∙ (sym c.2 ∙ ap (λ b. suc_if b (view i s).ends) (sym c.3));
        }))
        (Returns-Allows (λ r. Follows i x (view i r)) (run T actions s)
          (run-Follows T i actions at_start s (c.3, c.0.1.0, c.0.1.1)))
        (λ r b f. b.balance ∙ ap (λ u. suc_if u (view i r).ends) f.0)

  -- From the start of a process in which the bridge returns 1, a run in which the tool is finalized
  -- at some point, by any thread, returns, and behind it the noted tool is not active, has been
  -- finalized once, if it has a function for that, and as many libraries have been closed as opened.
  pub connect-run-Ended :
      (T : ToolCode) (L : Loader) (before after : List Action) (me : ℕ) (thread : Option Thread)
      (s : Bridge)
      → bridge_initialize T L fresh_bridge ≡ (true, s)
      → (t : ℕ) × (s.tool ≡ some t)
        × Returns (λ r. Ended T t (view i r)) (run T (before ++ (finalize me thread ∷ after)) s)
  connect-run-Ended T L before after me thread s h =
      let c : Connected i (true, s) = subst (Connected i) h (bridge_initialize-Connected T L) in
      (c.0.0, c.0.1.2, run_finalize-Ended T i c.0.0 before after me thread s c.0.1)
