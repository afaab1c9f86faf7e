-- ===== src/Ompt/System/View.antt =====
-- What the calls of the bridge of src/ompt/ompt.cc leave as it is: most of them at most call a
-- function of the tool, with arguments that are not those of a thread's start or end.
use xkomp.Prelude.{
  ℕ, suc, ◌≡◌, refl, Bool, true, false, Option, List, [], ◌∷◌, ◌==◌, not, ◌&&◌, ◌||◌, Bool-cases,
  inl, inr,
}
use xkomp.Ompt.{
  Bridge, Tls, ToolCode, thread_datum, Arguments, thread_begin_args, thread_end_args,
  parallel_begin_args, parallel_end_args, implicit_task_args, task_create_args, task_schedule_args,
  dependences_args, sync_region_args, event_supported, Act, called, finalized, opened, closed,
  ompt_call, callback_at, same_datum,
}

abbrev pub suc_if : Bool → ℕ → ℕ
suc_if true n = suc n
suc_if false n = n

-- How many of the acts pass a test.
unfoldable pub count : (Act → Bool) → List Act → ℕ
count test [] = 0
count test (a ∷ acts) = suc_if (test a) (count test acts)

abbrev pub begins_thread : ℕ → Arguments → Bool
begins_thread i (thread_begin_args kind d) = same_datum d (thread_datum i)
begins_thread i _ = false

abbrev pub ends_thread : ℕ → Arguments → Bool
ends_thread i (thread_end_args d) = same_datum d (thread_datum i)
ends_thread i _ = false

abbrev pub is_begin : ℕ → Act → Bool
is_begin i (called which f args) = begins_thread i args
is_begin i _ = false

abbrev pub is_end : ℕ → Act → Bool
is_end i (called which f args) = ends_thread i args
is_end i _ = false

abbrev pub is_finalized : Act → Bool
is_finalized (finalized t) = true
is_finalized _ = false

abbrev pub is_opened : Act → Bool
is_opened (opened h) = true
is_opened _ = false

abbrev pub is_closed : Act → Bool
is_closed (closed h) = true
is_closed _ = false

-- The type of the function that is registered under each number, by its arguments.
abbrev pub fits : ℕ → Arguments → Bool
fits which (thread_begin_args kind d) = which == 1
fits which (thread_end_args d) = which == 2
fits which (parallel_begin_args e d n flags codeptr) = which == 3
fits which (parallel_end_args d e flags codeptr) = which == 4
fits which (implicit_task_args scope p t n index flags) = which == 7
fits which (task_create_args p d flags has_deps) = which == 5
fits which (task_schedule_args p status n) = which == 6
fits which (dependences_args d ds) = which == 18
fits which (sync_region_args kind scope p t) = (which == 23) || (which == 16)

-- A call of an event that the tool was told is never called, or with arguments of another type.
abbrev pub is_misfit : Act → Bool
is_misfit (called which f args) = not (event_supported which && fits which args)
is_misfit _ = false

-- The bridge without the tool's data, its acts counted, those of the thread `i` apart.
pub record View : Type 0 where
  pub callbacks : List ℕ
  pub tls : ℕ → Tls
  pub enabled : Bool
  pub tool : Option ℕ
  pub dlhandle : Option ℕ
  pub done : Bool
  pub begins : ℕ
  pub ends : ℕ
  pub finals : ℕ
  pub opens : ℕ
  pub closes : ℕ
  pub misfits : ℕ

abbrev pub view : ℕ → Bridge → View
view i s = record {
  callbacks = s.callbacks;
  tls = s.tls;
  enabled = s.enabled;
  tool = s.tool;
  dlhandle = s.dlhandle;
  done = s.done;
  begins = count (is_begin i) s.acts;
  ends = count (is_end i) s.acts;
  finals = count is_finalized s.acts;
  opens = count is_opened s.acts;
  closes = count is_closed s.acts;
  misfits = count is_misfit s.acts;
}

-- Whether a callback is registered under a number.
abbrev pub registered : List ℕ → ℕ → Bool
registered cbs which = not (callback_at cbs which == 0)

abbrev pub tell : ℕ → ℕ → Arguments → View → View
tell i which args v = record v {
  begins = suc_if (registered v.callbacks which && begins_thread i args) v.begins;
  ends = suc_if (registered v.callbacks which && ends_thread i args) v.ends;
}

-- A callback adds to the counts of its thread where it is registered.
pub view-ompt_call :
    (T : ToolCode) (i which : ℕ) (args : Arguments) (s : Bridge)
    → (event_supported which && fits which args) ≡ true
    → view i (ompt_call T which args s) ≡ tell i which args (view i s)
unfolding ompt_call count
view-ompt_call T i which args s fit = elim (Bool-cases (callback_at s.callbacks which == 0)) [
  | inl e ↦ rw e refl
  | inr e ↦ rw (e, fit) refl
]

-- One with other arguments is not seen.
pub view-ompt_call_other :
    (T : ToolCode) (i which : ℕ) (args : Arguments) (s : Bridge)
    → (event_supported which && fits which args) ≡ true
    → begins_thread i args ≡ false
    → ends_thread i args ≡ false
    → view i (ompt_call T which args s) ≡ view i s
unfolding ompt_call count
view-ompt_call_other T i which args s fit b e =
    elim (Bool-cases (callback_at s.callbacks which == 0)) [
      | inl null ↦ rw null refl
      | inr set ↦ rw (set, fit, b, e) refl
    ]
