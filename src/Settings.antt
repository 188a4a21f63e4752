-- ===== src/Settings.antt =====
-- The file setting.txt: two_rounds/menu.c writes the directory for downloads, the one for temporary
-- files and the shared ones into it, and `file_cond` of two_rounds/func_strutture.c reads the shared
-- ones back. A file and what the user types are bytes. `none`: the code writes behind an array or
-- reads one that is not set, or a loop never ends, since it takes the end of a file for no error.
pub mod Lines
pub mod RoundTrip
use rounds.Base.{
  ℕ, zero, suc, ◌+◌, Bool, true, false, ◌&&◌, ◌||◌, ◌==◌, ltb, leb, if◌then◌else◌, Option, none,
  some, List, [], ◌∷◌, ◌++◌, length,
}

abbrev pub newline : ℕ
newline = 10

-- `char percorso[100]`
abbrev pub percorso_size : ℕ
percorso_size = 100

infixl 5 ◌>>=◌
abbrev pub ◌>>=◌ {ℓ κ} : {A : Type ℓ} {B : Type κ} → Option A → (A → Option B) → Option B
none >>= f = none
some a >>= f = f a

-- `while (b) { read(sorgente, c, 1); if (*c == '\n') b = 0; }`: the line and what stands behind it.
abbrev pub cons_line : ℕ → Option (List ℕ × List ℕ) → Option (List ℕ × List ℕ)
cons_line c none = none
cons_line c (some (l, rest)) = some (c ∷ l, rest)

unfoldable pub read_line : List ℕ → Option (List ℕ × List ℕ)
read_line [] = none
read_line (c ∷ cs) =
    let longer = cons_line c (read_line cs) in if c == newline then some ([], cs) else longer

abbrev pub write_line : List ℕ → List ℕ → List ℕ
write_line l rest = l ++ (newline ∷ rest)

-- The white space of the C locale.
abbrev pub is_space : ℕ → Bool
is_space c = (leb 9 c && leb c 13) || c == 32

-- What the calls of `scanf("%s", percorso)` read from what is typed, one call after the other: each
-- passes over white space and takes the bytes up to the next one. `word` is what has been taken.
abbrev pub end_word : List ℕ → List (List ℕ) → List (List ℕ)
end_word [] words = words
end_word (c ∷ word) words = (c ∷ word) ∷ words

unfoldable pub words_from : List ℕ → List ℕ → List (List ℕ)
words_from word [] = end_word word []
words_from word (c ∷ typed) =
    let ended = end_word word (words_from [] typed) in
    let longer = words_from (word ++ (c ∷ [])) typed in if is_space c then ended else longer

abbrev pub scanf_words : List ℕ → List (List ℕ)
scanf_words typed = words_from [] typed

-- The string in `percorso`: a byte 0 that is typed ends it.
unfoldable pub c_string : List ℕ → List ℕ
c_string [] = []
c_string (c ∷ word) = let rest = c_string word in if c == 0 then [] else c ∷ rest

-- `percorso` behind a call that reads `word`.
abbrev pub scanf_percorso : List ℕ → Option (List ℕ)
scanf_percorso word = if ltb (length word) percorso_size then some (c_string word) else none

-- `percorso` behind the only call; at the end of the input it is not set.
abbrev pub first_word : List ℕ → Option (List ℕ)
first_word typed = elim (scanf_words typed) [ [] ↦ none | word ∷ words ↦ scanf_percorso word ]

-- `set_dir_temp`: the first line is replaced.
unfoldable pub set_dir_temp : List ℕ → List ℕ → Option (List ℕ)
set_dir_temp typed sorgente = do
  (corrente, rest) ← read_line sorgente
  percorso ← first_word typed
  some (write_line percorso rest)

-- `set_dir_down`: the second line is replaced.
unfoldable pub set_dir_down : List ℕ → List ℕ → Option (List ℕ)
set_dir_down typed sorgente = do
  (first, rest) ← read_line sorgente
  (corrente, rest') ← read_line rest
  percorso ← first_word typed
  some (write_line first (write_line percorso rest'))

unfoldable pub same_word : List ℕ → List ℕ → Bool
same_word [] [] = true
same_word (c ∷ s) (d ∷ t) = c == d && same_word s t
same_word _ _ = false

abbrev pub exit_word : List ℕ
exit_word = b'e' ∷ b'x' ∷ b'i' ∷ b't' ∷ []

-- The loop of `set_dir_cond` over what is typed, up to `exit`; at the end of the input it never ends.
abbrev pub before_lines : List ℕ → Option (List ℕ) → Option (List ℕ)
before_lines l none = none
before_lines l (some rest) = some (write_line l rest)

unfoldable pub write_dirs : List (List ℕ) → Option (List ℕ)
write_dirs [] = none
write_dirs (word ∷ words) =
    let dirs = write_dirs words in
    scanf_percorso word >>= λ percorso.
    (if same_word exit_word percorso then some [] else before_lines percorso dirs)

-- `set_dir_cond`: three lines stay, and the directories come behind them.
unfoldable pub set_dir_cond : List ℕ → List ℕ → Option (List ℕ)
set_dir_cond typed sorgente = do
  (l₁, rest₁) ← read_line sorgente
  (l₂, rest₂) ← read_line rest₁
  (l₃, rest₃) ← read_line rest₂
  dirs ← write_dirs (scanf_words typed)
  some (write_line l₁ (write_line l₂ (write_line l₃ dirs)))

-- The last loop of `file_cond`: the directories that are handed to `list_dir`, with what `percorso`
-- holds so far. `strcat` adds no zero byte; a line without its end is dropped.
abbrev pub cons_dir : List ℕ → Option (List (List ℕ)) → Option (List (List ℕ))
cons_dir p none = none
cons_dir p (some ps) = some (p ∷ ps)

unfoldable pub read_dirs : List ℕ → List ℕ → Option (List (List ℕ))
read_dirs percorso [] = some []
read_dirs percorso (c ∷ cs) = elim (c == newline) [
  | true ↦ cons_dir percorso (read_dirs [] cs)
  | false ↦ elim (c == 0) [
    | true ↦ read_dirs percorso cs
    | false ↦ elim (ltb (length percorso + 1) percorso_size) [
      | true ↦ read_dirs (percorso ++ (c ∷ [])) cs
      | false ↦ none
    ]
  ]
]

-- `file_cond`, where every directory can be listed.
unfoldable pub file_cond : List ℕ → Option (List (List ℕ))
file_cond sorgente = do
  (_, rest₁) ← read_line sorgente
  (_, rest₂) ← read_line rest₁
  (_, rest₃) ← read_line rest₂
  read_dirs [] rest₃
