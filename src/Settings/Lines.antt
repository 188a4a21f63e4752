-- ===== src/Settings/Lines.antt =====
-- Lines and directories that are written come back when they are read.
use rounds.Base.{
  ℕ, ◌+◌, ◌≡◌, ◌≢◌, ◌<◌, refl, ◌∙◌, ap, arith, false, some, List, [], ◌∷◌, ◌++◌, length,
  length-append, ==_iff, ◌==◌, Bool-cases, Option-cases, inl, inr, lt→ltb, append_assoc, append-nil,
}
use rounds.Settings.{
  newline, percorso_size, read_line, write_line, is_space, words_from, scanf_words, c_string,
  same_word, exit_word, write_dirs, cons_dir, read_dirs,
}

-- No byte of a line ends it, and no byte of a word is white space or ends a string.
abbrev pub OneLine : List ℕ → Type 0
OneLine [] = Unit {0}
OneLine (c ∷ l) = (c ≢ newline) × OneLine l

abbrev pub IsWord : List ℕ → Type 0
IsWord [] = Unit {0}
IsWord (c ∷ l) = (is_space c ≡ false) × (c ≢ 0) × IsWord l

not_newline : (c : ℕ) → is_space c ≡ false → c ≢ newline
not_newline c h e = absurd (cc (rw e at h))

pub word-OneLine : (w : List ℕ) → IsWord w → OneLine w
word-OneLine [] h = tt
word-OneLine (c ∷ w) (sp, nz, h) = (not_newline c sp, word-OneLine w h)

pub read_line-write_line :
    (l rest : List ℕ) → OneLine l → read_line (write_line l rest) ≡ some (l, rest)
unfolding read_line
read_line-write_line [] rest h = refl
read_line-write_line (c ∷ l) rest (ne, h) = rw (read_line-write_line l rest h) (ground arith)

pub read_line-inv :
    (s l rest : List ℕ) → read_line s ≡ some (l, rest) → OneLine l × (s ≡ write_line l rest)
unfolding read_line
read_line-inv [] l rest e = absurd (cc)
read_line-inv (c ∷ cs) l rest e = elim (Bool-cases (c == newline)) [
  | inl end ↦
      let e' = rw (end, read_line) at e in
      let here : l ≡ [] = cc e' in
      let behind : rest ≡ cs = cc e' in rw (here, behind, (==_iff c newline).0 end) (tt, refl)
  | inr more ↦ elim (Option-cases (read_line cs)) [
    | inl endless ↦ absurd (cc (rw (more, endless, read_line) at e))
    | inr ((l', rest'), found) ↦
        let e' = rw (more, found, read_line) at e in
        let here : l ≡ c ∷ l' = cc e' in
        let behind : rest ≡ rest' = cc e' in
        let (one, same) = read_line-inv cs l' rest' found in
        rw (here, behind)
          ((λ end. absurd (cc (more, (==_iff c newline).1 end)), one), ap (λ t. c ∷ t) same)
  ]
]

-- A directory that can be shared: it is a word that fits into `percorso` and is not the one that ends
-- the input.
pub record IsDir (w : List ℕ) : Type 0 where
  pub some_byte : 0 < length w
  pub word : IsWord w
  pub fits : length w < percorso_size
  pub other : same_word exit_word w ≡ false

abbrev pub AllDirs : List (List ℕ) → Type 0
AllDirs [] = Unit {0}
AllDirs (w ∷ ws) = IsDir w × AllDirs ws

-- What is written for the directories.
pub written : List (List ℕ) → List ℕ
written [] = []
written (w ∷ ws) = write_line w (written ws)

-- From inside a word that has begun with `p`.
words_from-line :
    (p w rest : List ℕ)
    → IsWord w
    → 0 < length p + length w
    → words_from p (write_line w rest) ≡ (p ++ w) ∷ words_from [] rest
unfolding words_from
words_from-line [] [] rest h ne = absurd (omega arith)
words_from-line (d ∷ p) [] rest h ne = rw (append-nil p) refl
words_from-line p (c ∷ w) rest (sp, nz, h) ne =
    let longer : length (p ++ (c ∷ [])) ≡ length p + 1 = length-append p (c ∷ []) in
    rw (words_from, sp)
      (words_from-line (p ++ (c ∷ [])) w rest h (omega arith)
        ∙ ap (λ t. t ∷ words_from [] rest) (append_assoc p (c ∷ []) w))

c_string-word : (w : List ℕ) → IsWord w → c_string w ≡ w
unfolding c_string
c_string-word [] h = refl
c_string-word (c ∷ w) (sp, nz, h) =
    let not_nul : (c == 0) ≡ false = ground arith in rw (not_nul, c_string-word w h) refl

-- The directories that are typed, each on its line, and then `exit`.
abbrev pub typed : List (List ℕ) → List ℕ
typed ws = written (ws ++ (exit_word ∷ []))

pub write_dirs-written :
    (ws : List (List ℕ)) → AllDirs ws → write_dirs (scanf_words (typed ws)) ≡ some (written ws)
unfolding write_dirs written same_word words_from c_string
write_dirs-written [] h = refl
write_dirs-written (w ∷ ws) (dir, h) =
    rw
      (
        written,
        words_from-line [] w (typed ws) dir.word (omega (arith, dir.some_byte)),
        write_dirs,
        lt→ltb (length w) percorso_size dir.fits,
        c_string-word w dir.word,
        dir.other,
        write_dirs-written ws h,
      )
      refl

-- From inside a line, where `percorso` holds its beginning.
read_dirs-line :
    (p w rest : List ℕ)
    → IsWord w
    → length p + length w < percorso_size
    → read_dirs p (write_line w rest) ≡ cons_dir (p ++ w) (read_dirs [] rest)
unfolding read_dirs
read_dirs-line p [] rest h fits = rw (append-nil p) refl
read_dirs-line p (c ∷ w) rest (sp, nz, h) fits =
    let nl : c ≢ newline = not_newline c sp in
    let not_nl : (c == newline) ≡ false = ground arith in
    let not_nul : (c == 0) ≡ false = ground arith in
    let longer : length (p ++ (c ∷ [])) ≡ length p + 1 = length-append p (c ∷ []) in
    rw (not_nl, not_nul, lt→ltb (length p + 1) percorso_size (omega arith), read_dirs)
      (read_dirs-line (p ++ (c ∷ [])) w rest h (omega arith)
        ∙ ap (λ t. cons_dir t (read_dirs [] rest)) (append_assoc p (c ∷ []) w))

pub read_dirs-written : (ws : List (List ℕ)) → AllDirs ws → read_dirs [] (written ws) ≡ some ws
unfolding written
read_dirs-written [] h = unfold read_dirs in refl
read_dirs-written (w ∷ ws) (dir, h) =
    read_dirs-line [] w (written ws) dir.word (omega (arith, dir.fits))
    ∙ rw (read_dirs-written ws h) refl
