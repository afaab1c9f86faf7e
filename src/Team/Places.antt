-- ===== src/Team/Places.antt =====
-- `parse_places` and `parse_proc_bind` of src/xkomp/parallel.cc.
use text.Mathlib.Text.{◌==◌}
use text.Mathlib.TextEquality.{eq_iff}
use Prim.Native.String.{String}
use xkomp.Prelude.{◌↔◌, ◌≡◌, refl, ◌≢◌, Option, none, some, List, [], ◌∷◌, arith, if◌then◌else◌}

pub data Places : Type 0 where
  thread core l1 l2 l3 numa device socket machine : Places

pub data Mode : Type 0 where
  compact spread : Mode

unfoldable pub mapping : List (String × Places)
mapping =
    ("threads", thread)
    ∷ ("cores", core)
    ∷ ("L1s", l1)
    ∷ ("L2s", l2)
    ∷ ("L3s", l3)
    ∷ ("numas", numa)
    ∷ ("devices", device)
    ∷ ("sockets", socket)
    ∷ ("machines", machine)
    ∷ []

-- The loop over the table: the first name that is equal.
unfoldable pub find_places : List (String × Places) → String → Option Places
find_places [] s = none
find_places ((name, p) ∷ rest) s = if name == s then some p else find_places rest s

-- The fallback is the table's entry 1.
abbrev fallback : Option Places → Places
fallback none = core
fallback (some p) = p

unfoldable pub parse_places : Option String → Places
unfolding mapping find_places
parse_places none = thread
parse_places (some s) = fallback (find_places mapping s)

unfoldable pub parse_proc_bind : Option String → Mode
parse_proc_bind none = compact
parse_proc_bind (some s) =
    if s == "close" then compact else if s == "spread" then spread else compact

-- The name that the documentation of `OMP_PLACES` gives to each kind of place.
abbrev pub places_name : Places → String
places_name thread = "threads"
places_name core = "cores"
places_name l1 = "L1s"
places_name l2 = "L2s"
places_name l3 = "L3s"
places_name numa = "numas"
places_name device = "devices"
places_name socket = "sockets"
places_name machine = "machines"

-- Every kind of place is read back from its name.
pub parse_places-places_name : (p : Places) → parse_places (some (places_name p)) ≡ p
unfolding parse_places
parse_places-places_name thread = refl
parse_places-places_name _ = refl

-- A name that is none of the nine reads as "cores".
pub parse_places_unknown :
    (s : String) → ((p : Places) → places_name p ≢ s) → parse_places (some s) ≡ core
unfolding parse_places
parse_places_unknown s h = ground (
  arith,
  eq_iff "threads" s,
  eq_iff "cores" s,
  eq_iff "L1s" s,
  eq_iff "L2s" s,
  eq_iff "L3s" s,
  eq_iff "numas" s,
  eq_iff "devices" s,
  eq_iff "sockets" s,
  eq_iff "machines" s,
  h thread,
  h core,
  h l1,
  h l2,
  h l3,
  h numa,
  h device,
  h socket,
  h machine,
)

-- The binding mode is `spread` for that name and `compact` for every other.
pub parse_proc_bind_iff : (s : String) → (parse_proc_bind (some s) ≡ spread) ↔ (s ≡ "spread")
unfolding parse_proc_bind
parse_proc_bind_iff s = (ground (arith, eq_iff s "close", eq_iff s "spread"), λ e. rw e)
