-- ===== src/Tests/Files.antt =====
-- The shared files at concrete inputs.
use rounds.Base.{some, ◌++◌, get_or, ◌<◌, ◌≤◌, true, length-replicate}
use rounds.Settings.{newline, read_line, read_dirs, file_cond}
use rounds.Sharing.{Disk, max_file, shares, share_files, is_shared, has_char, has_end}
use rounds.Sharing.Names.{TableFits}
use rounds.Sharing.Found.{DirsFit, total_shared, some_hash, share_files-search}
use rounds.Base.{
  ℕ, zero, suc, ◌+◌, ◌≡◌, ◌≢◌, refl, arith, false, List, [], ◌∷◌, length, replicate, set,
  find_first,
}
use rounds.Params.{hash_size}
use rounds.MyFiles.{BufferFile, search_hashfile, insert_my_file}
use rounds.MyFiles.Insertion.{NoZero, insert_my_file-lost}

replicate-NoZero : (n c : ℕ) → c ≢ 0 → NoZero (replicate n c)
replicate-NoZero zero c h k l = absurd (omega arith)
replicate-NoZero (suc n) c h zero l = h
replicate-NoZero (suc n) c h (suc k) l = replicate-NoZero n c h k (omega arith)

abbrev no_files : BufferFile
no_files = record { index = 0; file = replicate 3 (replicate hash_size 0) }

-- A name with the bytes of "a".
abbrev name : List ℕ
name = 97 ∷ []

abbrev full_hash : List ℕ → List ℕ
full_hash s = replicate hash_size (length s + 6)

abbrev cut_hash : List ℕ → List ℕ
cut_hash s = set (full_hash s) 3 0

nothing_found : search_hashfile (cut_hash name) no_files ≡ false
unfolding search_hashfile find_first
nothing_found = refl

insert_my_file-lost_example :
    search_hashfile (cut_hash name) (insert_my_file cut_hash name no_files) ≡ false
insert_my_file-lost_example =
    insert_my_file-lost cut_hash name no_files 3 5 (omega arith) refl refl (omega arith)
      (omega arith) refl (λ e. absurd (omega arith)) nothing_found

-- A table as it is before anything is written into it.
abbrev row : List ℕ
row = replicate hash_size 9

abbrev rows_of : ℕ → List (List ℕ)
rows_of n = replicate n row

abbrev fresh_table : BufferFile
fresh_table = record { index = 0; file = rows_of max_file }

length-rows : (n i : ℕ) → i < n → length (get_or (rows_of n) i []) ≡ 16
length-rows zero i h = absurd (omega arith)
length-rows (suc n) zero h = refl
length-rows (suc n) (suc i) h = length-rows n i (omega arith)

fresh_table-TableFits : TableFits fresh_table
fresh_table-TableFits = record { size = length-replicate max_file row; rows = length-rows max_file }

abbrev music : List ℕ
music = b'm' ∷ b'/' ∷ []

-- The directory has the files "a" and "a~"; the second is a backup.
abbrev disk : Disk
disk = record {
  scandir = λ p. some (name ∷ (97 ∷ 126 ∷ []) ∷ []);
  is_regular = λ p. true;
  behind_hash = λ p. 3 ∷ 0 ∷ [];
}

abbrev setting : List ℕ
setting = newline ∷ newline ∷ newline ∷ (music ++ (newline ∷ []))

read_back : file_cond setting ≡ some (music ∷ [])
unfolding file_cond read_line read_dirs
read_back = refl

one_dir-DirsFit : DirsFit full_hash disk (music ∷ [])
unfolding is_shared has_char has_end
one_dir-DirsFit = (
  (λ e. cc (e)),
  (
    (
      omega arith,
      λ _. (omega arith, replicate-NoZero hash_size 7 (λ e. absurd (omega arith)), refl),
    ),
    ((omega arith, λ e. cc (e)), tt),
  ),
  tt,
)

few_files : total_shared full_hash disk (music ∷ []) ≤ max_file
unfolding is_shared has_char
few_files = omega arith

share_files-search_example :
    (b' : BufferFile) × (share_files full_hash disk setting fresh_table ≡ shares b')
    × ((hash : List ℕ) → search_hashfile hash b' ≡ some_hash full_hash disk hash (music ∷ []))
share_files-search_example =
    share_files-search full_hash disk (λ s. refl) setting (music ∷ []) fresh_table
      fresh_table-TableFits refl read_back one_dir-DirsFit few_files
