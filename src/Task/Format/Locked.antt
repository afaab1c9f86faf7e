-- ===== src/Task/Format/Locked.antt =====
-- `get_or_create_loc_format` of src/kmp/task.cc with its spinlock: threads that call it at the same
-- time, one step of one thread after another.
pub mod Agreement
pub mod Steps
pub mod Solo
use xkomp.Prelude.{
  ℕ, Outcome, ok, dies, undefined, ◌>>=◌, Bool, true, false, Option, none, some, List, [], ◌∷◌,
  ◌==◌, if◌then◌else◌, ◌≡◌,
}
use xkomp.Task.Format.{Formats, Format, Kmp, find_format, format_key, loc_format}
use xkomp.Task.Format.Register.{Construct}

-- Where a thread stands in its call, with the key and the id that it knows there: before the lock,
-- before the search, before the creation, before the insertion, before the unlock, and at the end.
pub data Point : Type 0 where
  waiting : Point
  holding absent : ℕ → Point
  built : ℕ → ℕ → Point
  found returned : ℕ → Point

-- XKRT's spinlock: a turn of SPINLOCK_LOCK takes a lock that is free, and finds nothing to take
-- while it is held; SPINLOCK_UNLOCK leaves the lock as it was before it was taken.
pub record Spinlock : Type 1 where
  pub State : Type 0
  pub held : State → Bool
  pub try_lock : State → Option State
  pub unlock : State → State
  pub try_lock-held : (l : State) → held l ≡ true → try_lock l ≡ none
  pub held-try_lock : (l l' : State) → try_lock l ≡ some l' → held l' ≡ true
  pub unlock-try_lock : (l l' : State) → try_lock l ≡ some l' → unlock l' ≡ l

module _ (X : Formats) (L : Spinlock) where
  open X use {create, get}
  open L use {State, try_lock, unlock}

  -- `formats.kmp` with `per_loc_lock`.
  pub record Shared : Type 0 where
    pub kmp : Kmp X
    pub per_loc_lock : State

  unfoldable pub spin : Shared → ℕ → Option State → Shared × Point
  spin s key none = (s, waiting)
  spin s key (some l) = (record { kmp = s.kmp; per_loc_lock = l }, holding key)

  -- The keyless return, or one turn of SPINLOCK_LOCK: while the lock is held, the thread spins.
  unfoldable pub enter : Shared → Option ℕ → Shared × Point
  unfolding spin
  enter s none = (s, returned s.kmp.host)
  enter s (some key) = spin s key (try_lock s.per_loc_lock)

  unfoldable pub looked_up : ℕ → Option ℕ → Point
  looked_up key none = absent key
  looked_up key (some id) = found id

  unfoldable pub build_format :
      Shared → ℕ → (Format → Format) → Option Format → Outcome (Shared × Point)
  build_format s key format none = dies undefined
  build_format s key format (some template) =
      let (table', id) = create s.kmp.table (format template) in
      ok (
        record {
          kmp = record { table = table'; host = s.kmp.host; per_loc = s.kmp.per_loc };
          per_loc_lock = s.per_loc_lock;
        },
        built key id,
      )

  unfoldable pub insert_entry : Shared → ℕ → ℕ → Shared
  insert_entry s key id = record {
    kmp = record { table = s.kmp.table; host = s.kmp.host; per_loc = (key, id) ∷ s.kmp.per_loc };
    per_loc_lock = s.per_loc_lock;
  }

  -- One step of a thread in its call for `c`.
  unfoldable pub advance : Construct → Shared → Point → Outcome (Shared × Point)
  advance c s waiting = ok (enter s (format_key c.loc c.jit_desc))
  advance c s (holding key) = ok (s, looked_up key (find_format s.kmp.per_loc key))
  advance c s (absent key) =
      build_format s key (λ template. loc_format template c.loc c.jit_desc c.scatter)
        (get s.kmp.table s.kmp.host)
  advance c s (built key id) = ok (insert_entry s key id, found id)
  advance c s (found id) =
      ok (record { kmp = s.kmp; per_loc_lock = unlock s.per_loc_lock }, returned id)
  advance c s (returned id) = ok (s, returned id)

  pub record World : Type 0 where
    pub shared : Shared
    pub points : ℕ → Point

  abbrev pub moved_to : World → ℕ → Shared × Point → World
  moved_to w i r = record { shared = r.0; points = λ j. if j == i then r.1 else w.points j }

  -- The next step is one of thread `i`.
  unfoldable pub turn : (ℕ → Construct) → ℕ → World → Outcome World
  turn calls i w = advance (calls i) w.shared (w.points i) >>= λ r. ok (moved_to w i r)

  unfoldable pub interleave : (ℕ → Construct) → List ℕ → World → Outcome World
  interleave calls [] w = ok w
  interleave calls (i ∷ rest) w = turn calls i w >>= interleave calls rest

  -- Every thread is about to call.
  abbrev pub all_waiting : Kmp X → State → World
  all_waiting s l = record { shared = record { kmp = s; per_loc_lock = l }; points = λ i. waiting }
