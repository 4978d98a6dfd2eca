-- ===== src/SchoolYears/Workspace/Events.antt =====
-- Sequences of openings and closings of school years.
use pds_core.Base.{◌≡◌, Bool, Option, some, List, [], ◌∷◌, Text, ok, Outcome-cases, inl, inr}
use pds_core.Time.{DateTime, IsoText}
use pds_core.SchoolYears.Workspace.{
  SchoolYearState, StateFile, load_school_year_state, open_school_year, close_school_year,
}
use pds_core.SchoolYears.Workspace.Lifecycle.{
  load-open, load-close, open_school_year_atomic, close_school_year_atomic,
}

module _ (iso : IsoText) where
  -- What a caller may do to the workspace.
  pub data Event : Type 0 where
    opening : Bool → Text → DateTime → Bool → Event
    closing : Bool → DateTime → Event

  abbrev pub happen : Event → StateFile → StateFile
  happen (opening writable year at overwrite) file =
      (open_school_year iso writable year at overwrite file).1
  happen (closing writable at) file = (close_school_year iso writable at file).1

  abbrev pub happen_all : List Event → StateFile → StateFile
  happen_all [] file = file
  happen_all (e ∷ events) file = happen_all events (happen e file)

  pub record IsLoadable (file : StateFile) : Type 0 where
    pub found : Option SchoolYearState
    pub loads : load_school_year_state iso file ≡ ok found

  happen-IsLoadable : (e : Event) (file : StateFile) → IsLoadable file → IsLoadable (happen e file)
  happen-IsLoadable (opening writable year at overwrite) file v =
      elim (Outcome-cases (open_school_year iso writable year at overwrite file).0) [
        | inl (s, e) ↦ record {
          found = some s;
          loads = (load-open iso writable year at overwrite file s e).2;
        }
        | inr (x, e) ↦ rw (open_school_year_atomic iso writable year at overwrite file e) v
      ]
  happen-IsLoadable (closing writable at) file v =
      elim (Outcome-cases (close_school_year iso writable at file).0) [
        | inl (s, e) ↦
            let (_, _, _, _, _, _, _, loads, _) = load-close iso writable at file s e in
            record { found = some s; loads = loads }
        | inr (x, e) ↦ rw (close_school_year_atomic iso writable at file e) v
      ]

  -- From a state file that loads, the file loads after any sequence of openings and closings, with
  -- failed writes and rejected calls among them.
  pub happen_all-IsLoadable :
      (events : List Event) (file : StateFile)
      → IsLoadable file
      → IsLoadable (happen_all events file)
  happen_all-IsLoadable [] file v = v
  happen_all-IsLoadable (e ∷ events) file v =
      happen_all-IsLoadable events (happen e file) (happen-IsLoadable e file v)
