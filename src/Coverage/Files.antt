-- ===== src/Coverage/Files.antt =====
-- The status of a whole reading coverage in internal/engine/reading_coverage.go.
use go_agent_claw.Prelude.{
  ◌≤◌, ◌≡◌, ◌↔◌, refl, inl, inr, Bool, true, false, List, [], ◌∷◌, arith, Bool-cases, All, length,
}
use go_agent_claw.Coverage.{FileReadingCoverage, is_complete, complete_files, status_of}

abbrev pub IsComplete : FileReadingCoverage → Type 0
IsComplete f = f.complete ≡ true

complete_files-le-length : (fs : List FileReadingCoverage) → complete_files fs ≤ length fs
unfolding complete_files
complete_files-le-length [] = omega arith
complete_files-le-length (f ∷ fs) = ground (arith, complete_files-le-length fs)

complete_files-All :
    (fs : List FileReadingCoverage) → complete_files fs ≡ length fs → All IsComplete fs
unfolding complete_files
complete_files-All [] h = tt
complete_files-All (f ∷ fs) h = elim (Bool-cases f.complete) [
  | inl t ↦ (t, complete_files-All fs (ground (arith, t, h)))
  | inr e ↦ absurd (ground (arith, complete_files-le-length fs, e, h))
]

complete_files-length :
    (fs : List FileReadingCoverage) → All IsComplete fs → complete_files fs ≡ length fs
unfolding complete_files
complete_files-length [] a = refl
complete_files-length (f ∷ fs) a = ground (arith, a.0, complete_files-length fs a.1)

-- The status is "complete" exactly if the list of files is known in full, their versions were confirmed,
-- and each of the files is complete.
pub status_of_lem :
    (discovery_incomplete recorded_only : Bool) (files : List FileReadingCoverage)
    → (status_of discovery_incomplete recorded_only files ≡ is_complete)
      ↔ ((discovery_incomplete ≡ false) × (recorded_only ≡ false) × All IsComplete files)
unfolding status_of
status_of_lem discovery_incomplete recorded_only files = (
  λ h. (ground (arith, h), ground (arith, h), complete_files-All files (ground (arith, h))),
  λ h. ground (arith, h.0, h.1, complete_files-length files h.2),
)
