-- ===== src/Settings/RoundTrip.antt =====
-- What the menu writes into the file of the settings is what the start reads from it.
use rounds.Base.{ℕ, ◌≡◌, refl, ◌∙◌, ap, some, List, Option-cases, inl, inr}
use rounds.Settings.{
  read_line, write_line, first_word, set_dir_temp, set_dir_down, set_dir_cond, file_cond,
}
use rounds.Settings.Lines.{
  OneLine, read_line-write_line, read_line-inv, AllDirs, typed, written, write_dirs-written,
  read_dirs-written,
}

-- For a file that begins with three lines, and directories that are not empty, fit into `percorso`,
-- are not the word `exit`, and have no white space and no byte 0: behind `set_dir_cond`, when each of
-- them is typed on its line and then `exit`, the three lines are the same and `file_cond` finds
-- exactly these directories, in their order.
pub set_dir_cond-file_cond :
    (l₁ l₂ l₃ rest : List ℕ) (dirs : List (List ℕ))
    → OneLine l₁
    → OneLine l₂
    → OneLine l₃
    → AllDirs dirs
    → let lines = λ (behind : List ℕ). write_line l₁ (write_line l₂ (write_line l₃ behind)) in
      (set_dir_cond (typed dirs) (lines rest) ≡ some (lines (written dirs)))
      × (file_cond (lines (written dirs)) ≡ some dirs)
unfolding set_dir_cond file_cond
set_dir_cond-file_cond l₁ l₂ l₃ rest dirs h₁ h₂ h₃ h = (
  rw
      (
        read_line-write_line l₁ (write_line l₂ (write_line l₃ rest)) h₁,
        read_line-write_line l₂ (write_line l₃ rest) h₂,
        read_line-write_line l₃ rest h₃,
        write_dirs-written dirs h,
      )
      refl,
  rw
      (
        read_line-write_line l₁ (write_line l₂ (write_line l₃ (written dirs))) h₁,
        read_line-write_line l₂ (write_line l₃ (written dirs)) h₂,
        read_line-write_line l₃ (written dirs) h₃,
      )
      (read_dirs-written dirs h),
)

-- The new directory is the first line, and the rest of the file stays.
pub set_dir_temp_lem :
    (typed w s s' : List ℕ)
    → OneLine w
    → first_word typed ≡ some w
    → set_dir_temp typed s ≡ some s'
    → (l : List ℕ) × (rest : List ℕ) × (read_line s ≡ some (l, rest))
      × (read_line s' ≡ some (w, rest))
unfolding set_dir_temp
set_dir_temp_lem typed w s s' h scan e = elim (Option-cases (read_line s)) [
  | inl endless ↦ absurd (cc (rw endless at e))
  | inr ((l, rest), found) ↦
      let e' = rw (found, scan) at e in
      let same : s' ≡ write_line w rest = cc e' in
      (l, rest, found, rw same (read_line-write_line w rest h))
]

-- The new directory is the second line, and the rest of the file stays.
pub set_dir_down_lem :
    (typed w s s' : List ℕ)
    → OneLine w
    → first_word typed ≡ some w
    → set_dir_down typed s ≡ some s'
    → (first : List ℕ) × (l : List ℕ) × (rest : List ℕ) × (read_line s
        ≡ some (first, write_line l rest))
      × (read_line s' ≡ some (first, write_line w rest))
      × OneLine l
unfolding set_dir_down
set_dir_down_lem typed w s s' h scan e = elim (Option-cases (read_line s)) [
  | inl endless ↦ absurd (cc (rw endless at e))
  | inr ((first, behind), found) ↦ elim (Option-cases (read_line behind)) [
    | inl endless ↦ absurd (cc (rw (found, endless) at e))
    | inr ((l, rest), found') ↦
        let e' = rw (found, found', scan) at e in
        let same : s' ≡ write_line first (write_line w rest) = cc e' in
        let (one, whole) = read_line-inv s first behind found in
        let (one', whole') = read_line-inv behind l rest found' in
        (
          first,
          l,
          rest,
          found ∙ ap (λ t. some (first, t)) whole',
          rw same (read_line-write_line first (write_line w rest) one),
          one',
        )
  ]
]

-- A new directory for temporary files leaves the shared ones as they are.
pub set_dir_temp-file_cond :
    (typed w s s' : List ℕ)
    → OneLine w
    → first_word typed ≡ some w
    → set_dir_temp typed s ≡ some s'
    → file_cond s' ≡ file_cond s
unfolding file_cond
set_dir_temp-file_cond typed w s s' h scan e =
    let (l, rest, before, after) = set_dir_temp_lem typed w s s' h scan e in rw (before, after) refl

-- A new directory for downloads is the second line of the file behind `set_dir_down`; the first line
-- and the directories that `file_cond` finds are as before.
pub set_dir_down-file_cond :
    (typed w s s' : List ℕ)
    → OneLine w
    → first_word typed ≡ some w
    → set_dir_down typed s ≡ some s'
    → (file_cond s' ≡ file_cond s)
      × ((first : List ℕ) × (l : List ℕ) × (rest : List ℕ) × (read_line s
            ≡ some (first, write_line l rest))
          × (read_line s' ≡ some (first, write_line w rest)))
unfolding file_cond
set_dir_down-file_cond typed w s s' h scan e =
    let (first, l, rest, before, after, one) = set_dir_down_lem typed w s s' h scan e in
    (
      rw (before, after, read_line-write_line w rest h, read_line-write_line l rest one) refl,
      (first, l, rest, before, after),
    )
