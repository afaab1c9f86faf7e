-- ===== src/Task/Format/Register.antt =====
-- The formats that the program registers at its start (the end of src/kmp/task.cc, src/kmp/formats.cc
-- and src/kmp/target/api.cc), and the constructs that ask for theirs afterwards.
pub mod Bodies
use xkomp.Prelude.{ℕ, Outcome, ok, ◌>>=◌, Option, none, some, List, [], ◌∷◌}
use xkomp.Task.Format.{
  Formats, Format, Ident, JitDesc, Kmp, body_omp_task, body_omp_task_target,
  body_omp_target_memcpy_async, get_or_create,
}

-- `memset` leaves no suggestion and no source.
unfoldable pub task_template : Format
task_template = record {
  host_body = body_omp_task;
  target_body = body_omp_task_target;
  suggest = 0;
  label = "omp-task";
  source = none;
}

unfoldable pub memcpy_template : Format
memcpy_template = record {
  host_body = body_omp_target_memcpy_async;
  target_body = body_omp_target_memcpy_async;
  suggest = 0;
  label = "omp-task";
  source = none;
}

-- A construct as `get_or_create_loc_format` sees it.
pub record Construct : Type 0 where
  pub loc : Option Ident
  pub jit_desc : Option JitDesc
  pub scatter : ℕ

module _ (X : Formats) where
  open X use {Table, create, get}

  -- `formats.kmp` behind the registration, with the id of the format of copies.
  unfoldable pub register_formats_kmp : Table → Kmp X × ℕ
  unfolding task_template memcpy_template
  register_formats_kmp t =
      let (t_task, host) = create t task_template in
      let (t_copy, copy) = create t_task memcpy_template in
      (record { table = t_copy; host = host; per_loc = [] }, copy)

  -- The ids that constructs are given, one after another.
  unfoldable pub formats_of : Kmp X → List Construct → Outcome (Kmp X × List ℕ)
  formats_of s [] = ok (s, [])
  formats_of s (c ∷ cs) = do
    (s', id) ← get_or_create X s c.loc c.jit_desc c.scatter
    (s'', ids) ← formats_of s' cs
    ok (s'', id ∷ ids)
