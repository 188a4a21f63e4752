-- ===== src/Sharing.antt =====
-- How a peer shares its files at the start, two_rounds/func_strutture.c: `file_cond` reads the names of
-- the directories in setting.txt and has `list_dir` insert the files of each into the table. What
-- `scandir` and `stat` tell of the disk is a parameter.
pub mod Names
pub mod Found
use rounds.Base.{
  ℕ, zero, suc, ◌+◌, Bool, true, false, not, ◌&&◌, ◌||◌, ◌==◌, ltb, if◌then◌else◌, Option, none,
  some, List, [], ◌∷◌, ◌++◌, length,
}
use rounds.Params.{hash_size}
use rounds.MyFiles.{BufferFile, insert_my_file}
use rounds.Settings.{newline, percorso_size, ◌>>=◌, read_line}

-- `scandir(percorso)`: the names in alphabetical order, or `none` for an error; and whether
-- `S_ISREG` holds of what `stat` tells of a path. `behind_hash` is what stands in memory behind
-- `char hash[16]` of `insert_MYfile` when the file of that name is inserted.
pub record Disk : Type 0 where
  pub scandir : List ℕ → Option (List (List ℕ))
  pub is_regular : List ℕ → Bool
  pub behind_hash : List ℕ → List ℕ

-- `char stringa[150]`, and `char percorso[100]` of `struct FileHash`.
abbrev pub stringa_size : ℕ
stringa_size = 150

-- `_MAX_FILE`
abbrev pub max_file : ℕ
max_file = 200

abbrev pub tilde : ℕ
tilde = 126

-- `strchr(d_name, '~') != NULL`
unfoldable pub has_char : ℕ → List ℕ → Bool
has_char c [] = false
has_char c (d ∷ s) = let rest = has_char c s in c == d || rest

unfoldable pub is_shared : Disk → List ℕ → List ℕ → Bool
is_shared disk stringa name = disk.is_regular stringa && not (has_char tilde name)

-- There is a byte 0 among the first `n`.
unfoldable pub has_end : ℕ → List ℕ → Bool
has_end zero s = false
has_end (suc n) [] = false
has_end (suc n) (c ∷ s) = let rest = has_end n s in c == 0 || rest

-- `strcpy(file, hash)` reads up to a byte 0 in `hash` or behind it, and writes no more than a cell of
-- the table: the 16 bytes of `file` and the 100 of `percorso`.
abbrev pub copy_ends : (List ℕ → List ℕ) → Disk → List ℕ → Bool
copy_ends md5 disk name = has_end (hash_size + percorso_size) (md5 name ++ disk.behind_hash name)

-- The body of `while (n--)`; `none`: `stringa`, the hash or the path in the table, or the table is
-- written out of bounds.
unfoldable pub share_name :
    (List ℕ → List ℕ) → Disk → List ℕ → List ℕ → BufferFile → Option BufferFile
share_name md5 disk percorso name b =
    let stringa = percorso ++ name in
    if ltb (length stringa) stringa_size
    then (if is_shared disk stringa name
        then (if ltb (length stringa) percorso_size
              && ltb b.index max_file
              && copy_ends md5 disk name
            then some (insert_my_file md5 name b)
            else none)
        else some b)
    else none

-- `while (n--)`: the last name comes first.
unfoldable pub list_names :
    (List ℕ → List ℕ) → Disk → List ℕ → List (List ℕ) → BufferFile → Option BufferFile
list_names md5 disk percorso [] b = some b
list_names md5 disk percorso (name ∷ names) b =
    list_names md5 disk percorso names b >>= share_name md5 disk percorso name

-- How `file_cond` ends: it returns 1, or 0 because a directory cannot be listed; it writes behind an
-- array; or it reads for ever, at the end of a file with fewer than three lines.
pub data Sharing : Type 0 where
  shares : BufferFile → Sharing
  unlisted : BufferFile → Sharing
  out_of_bounds : Sharing
  endless : Sharing

abbrev pub as_listed : Option BufferFile → Sharing
as_listed none = out_of_bounds
as_listed (some b) = shares b

unfoldable pub list_dir : (List ℕ → List ℕ) → Disk → List ℕ → BufferFile → Sharing
list_dir md5 disk percorso b = elim (disk.scandir percorso) [
  | none ↦ unlisted b
  | some names ↦ as_listed (list_names md5 disk percorso names b)
]

infixl 5 ◌then_share◌
abbrev pub ◌then_share◌ : Sharing → (BufferFile → Sharing) → Sharing
(shares b) then_share f = f b
(unlisted b) then_share f = unlisted b
out_of_bounds then_share f = out_of_bounds
endless then_share f = endless

-- `while (read(sorgente, c, 1) > 0)`, with what `percorso` holds so far.
unfoldable pub share_lines : (List ℕ → List ℕ) → Disk → List ℕ → List ℕ → BufferFile → Sharing
share_lines md5 disk percorso [] b = shares b
share_lines md5 disk percorso (c ∷ cs) b = elim (c == newline) [
  | true ↦ list_dir md5 disk percorso b then_share share_lines md5 disk [] cs
  | false ↦ elim (c == 0) [
    | true ↦ share_lines md5 disk percorso cs b
    | false ↦ elim (ltb (length percorso + 1) percorso_size) [
      | true ↦ share_lines md5 disk (percorso ++ (c ∷ [])) cs b
      | false ↦ out_of_bounds
    ]
  ]
]

-- `for (i = 0; i < 3; ++i)`: `n` lines are passed over.
unfoldable pub skip_lines : ℕ → List ℕ → Option (List ℕ)
skip_lines zero sorgente = some sorgente
skip_lines (suc n) sorgente = read_line sorgente >>= (λ r. skip_lines n r.1)

-- `file_cond`, with a file setting.txt that can be read.
unfoldable pub share_files : (List ℕ → List ℕ) → Disk → List ℕ → BufferFile → Sharing
share_files md5 disk sorgente b = elim (skip_lines 3 sorgente) [
  | none ↦ endless
  | some rest ↦ share_lines md5 disk [] rest b
]
