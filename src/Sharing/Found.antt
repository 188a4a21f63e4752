-- ===== src/Sharing/Found.antt =====
-- Which hashes a peer finds among its own files when it has been started.
use rounds.Base.{
  ℕ, ◌+◌, ◌≡◌, ◌≢◌, ◌≤◌, inl, inr, refl, sym, ap, ◌∙◌, arith, Bool, true, false, ◌||◌, ◌==◌, ltb,
  none, some, List, [], ◌∷◌, ◌++◌, length, Bool-cases, Option-cases,
}
use rounds.Params.{hash_size}
use rounds.MyFiles.{BufferFile, search_hashfile}
use rounds.MyFiles.Laws.{search_hashfile_lem}
use rounds.Settings.{newline, percorso_size, ◌>>=◌, read_line, read_dirs, file_cond}
use rounds.Sharing.{
  Disk, max_file, Sharing, shares, list_dir, ◌then_share◌, share_lines, skip_lines, share_files,
}
use rounds.Sharing.Names.{TableFits, NamesFit, count_shared, has_hash, or_false, list_names_lem}

some_eq : (xs ys : List (List ℕ)) → some xs ≡ some ys → xs ≡ ys
some_eq xs ys e = cc (e)

or_or : (a b c : Bool) → ((a || b) || c) ≡ (a || (b || c))
or_or true b c = refl
or_or false b c = refl

module _ (md5 : List ℕ → List ℕ) (disk : Disk) where
  -- The directories one after the other.
  abbrev list_dirs : List (List ℕ) → BufferFile → Sharing
  list_dirs [] b = shares b
  list_dirs (percorso ∷ dirs) b = list_dir md5 disk percorso b then_share list_dirs dirs

  step :
      (cs : List ℕ) (c : ℕ) (p : List ℕ) (dirs : List (List ℕ)) (b : BufferFile)
      → ((q : List ℕ) (ds : List (List ℕ)) (b' : BufferFile)
          → read_dirs q cs ≡ some ds
          → share_lines md5 disk q cs b' ≡ list_dirs ds b')
      → read_dirs p (c ∷ cs) ≡ some dirs
      → share_lines md5 disk p (c ∷ cs) b ≡ list_dirs dirs b
  unfolding read_dirs share_lines
  step cs c p dirs b rest e = elim (Bool-cases (c == newline)) [
    | inl nl ↦ elim (Option-cases (read_dirs [] cs)) [
      | inl stops ↦ absurd (cc (rw (read_dirs, nl, stops) at e))
      | inr (ds, e') ↦
          let same : (p ∷ ds) ≡ dirs = some_eq (p ∷ ds) dirs (rw (read_dirs, nl, e') at e) in
          rw (share_lines, nl, ← same)
            (ap (λ f. list_dir md5 disk p b then_share f) (λ i b'. rest [] ds b' e' i))
    ]
    | inr other ↦ elim (Bool-cases (c == 0)) [
      | inl nul ↦ rw (share_lines, other, nul) (rest p dirs b (rw (read_dirs, other, nul) at e))
      | inr char ↦ elim (Bool-cases (ltb (length p + 1) percorso_size)) [
        | inl fits ↦
            rw (share_lines, other, char, fits)
              (rest (p ++ (c ∷ [])) dirs b (rw (read_dirs, other, char, fits) at e))
        | inr long ↦ absurd (cc (rw (read_dirs, other, char, long) at e))
      ]
    ]
  ]

  share_lines-list_dirs :
      (cs p : List ℕ) (dirs : List (List ℕ)) (b : BufferFile)
      → read_dirs p cs ≡ some dirs
      → share_lines md5 disk p cs b ≡ list_dirs dirs b
  unfolding read_dirs share_lines
  share_lines-list_dirs [] p dirs b e = rw (← some_eq [] dirs e) refl
  share_lines-list_dirs (c ∷ cs) p dirs b e =
      step cs c p dirs b (λ q ds b' e'. share_lines-list_dirs cs q ds b' e') e

file_cond-skip_lines :
    (sorgente : List ℕ) → file_cond sorgente ≡ (skip_lines 3 sorgente >>= read_dirs [])
unfolding file_cond skip_lines
file_cond-skip_lines sorgente = elim (Option-cases (read_line sorgente)) [
  | inl e ↦ rw (e, ◌>>=◌) refl
  | inr (r, e) ↦ elim (Option-cases (read_line r.1)) [
    | inl e' ↦ rw (e, e', ◌>>=◌) refl
    | inr (r', e') ↦ elim (Option-cases (read_line r'.1)) [
      | inl e'' ↦ rw (e, e', e'', ◌>>=◌) refl
      | inr (r'', e'') ↦ rw (e, e', e'', ◌>>=◌) refl
    ]
  ]
]

-- The names that `scandir` finds in a directory.
abbrev pub names_of : Disk → List ℕ → List (List ℕ)
names_of disk percorso = elim (disk.scandir percorso) [ none ↦ [] | some names ↦ names ]

module _ (md5 : List ℕ → List ℕ) (disk : Disk) where
  -- All directories can be listed, and their names fit.
  abbrev pub DirsFit : List (List ℕ) → Type 0
  DirsFit [] = Unit {0}
  DirsFit (percorso ∷ dirs) =
      (disk.scandir percorso ≢ none)
      × NamesFit md5 disk percorso (names_of disk percorso)
      × DirsFit dirs

  -- How many files of the directories are shared, and whether one of these has the hash.
  abbrev pub total_shared : List (List ℕ) → ℕ
  total_shared [] = 0
  total_shared (percorso ∷ dirs) =
      count_shared md5 disk percorso (names_of disk percorso) + total_shared dirs

  abbrev pub some_hash : List ℕ → List (List ℕ) → Bool
  some_hash hash [] = false
  some_hash hash (percorso ∷ dirs) =
      has_hash md5 disk hash percorso (names_of disk percorso) || some_hash hash dirs

module _ (md5 : List ℕ → List ℕ) (disk : Disk)
    (len : (s : List ℕ) → length (md5 s) ≡ hash_size) where
  list_dir_lem :
      (percorso : List ℕ) (b : BufferFile)
      → TableFits b
      → disk.scandir percorso ≢ none
      → NamesFit md5 disk percorso (names_of disk percorso)
      → b.index + count_shared md5 disk percorso (names_of disk percorso) ≤ max_file
      → (b' : BufferFile) × (list_dir md5 disk percorso b ≡ shares b')
        × TableFits b'
        × (b'.index ≡ b.index + count_shared md5 disk percorso (names_of disk percorso))
        × ((hash : List ℕ)
            → search_hashfile hash b' ≡ (
                search_hashfile hash b || has_hash md5 disk hash percorso (names_of disk percorso)))
  unfolding list_dir
  list_dir_lem percorso b v listed fit room = elim (Option-cases (disk.scandir percorso)) [
    | inl fails ↦ absurd (listed fails)
    | inr (names, e) ↦
        let (b', e', v', i', found) =
          list_names_lem md5 disk len percorso (names_of disk percorso) b v fit room in
        let named : names_of disk percorso ≡ names = rw (names_of, e) refl in
        (b', rw (list_dir, e, ← named, e') refl, v', i', found)
  ]

  list_dirs_lem :
      (dirs : List (List ℕ)) (b : BufferFile)
      → TableFits b
      → DirsFit md5 disk dirs
      → b.index + total_shared md5 disk dirs ≤ max_file
      → (b' : BufferFile) × (list_dirs md5 disk dirs b ≡ shares b')
        × ((hash : List ℕ)
            → search_hashfile hash b' ≡ (search_hashfile hash b || some_hash md5 disk hash dirs))
  list_dirs_lem [] b v fit room = (b, refl, λ hash. or_false (search_hashfile hash b))
  list_dirs_lem (percorso ∷ dirs) b v (listed, names, fit) room =
      let (b1, e1, v1, i1, found1) = list_dir_lem percorso b v listed names (omega arith) in
      let (b2, e2, found2) = list_dirs_lem dirs b1 v1 fit (omega (arith, i1)) in
      (
        b2,
        rw (e1, e2) refl,
        λ hash.
            found2 hash
            ∙ rw (found1 hash) (
                or_or (search_hashfile hash b)
                  (has_hash md5 disk hash percorso (names_of disk percorso))
                  (some_hash md5 disk hash dirs)),
      )

  nothing_yet : (hash : List ℕ) (b : BufferFile) → b.index ≡ 0 → search_hashfile hash b ≡ false
  nothing_yet hash b none_yet = elim (search_hashfile_lem hash b (omega arith)) [
    | inl (found, i, l, _) ↦ absurd (omega arith)
    | inr (miss, _) ↦ miss
  ]

  -- Where MD5 gives 16 bytes, the table is empty at first, setting.txt names directories that can all
  -- be listed, with paths that fit, and at most 200 of their files are shared, none of them with a
  -- byte 0 in its hash, but each with one behind the hash in memory, within the 116 bytes that a cell
  -- of the table has: `file_cond` returns 1, and then a search for a hash answers 1 exactly when one
  -- of the shared files has this hash.
  pub share_files-search :
      (sorgente : List ℕ) (dirs : List (List ℕ)) (b : BufferFile)
      → TableFits b
      → b.index ≡ 0
      → file_cond sorgente ≡ some dirs
      → DirsFit md5 disk dirs
      → total_shared md5 disk dirs ≤ max_file
      → (b' : BufferFile) × (share_files md5 disk sorgente b ≡ shares b')
        × ((hash : List ℕ) → search_hashfile hash b' ≡ some_hash md5 disk hash dirs)
  unfolding share_files
  share_files-search sorgente dirs b v none_yet e fit room =
      let (b', e', found) = list_dirs_lem dirs b v fit (omega arith) in
      let read = sym (file_cond-skip_lines sorgente) ∙ e in
      elim (Option-cases (skip_lines 3 sorgente)) [
        | inl short ↦ absurd (cc (rw (short, ◌>>=◌) at read))
        | inr (rest, e'') ↦ (
          b',
          rw (share_files, e'')
              (share_lines-list_dirs md5 disk rest [] dirs b (rw (e'', ◌>>=◌) at read) ∙ e'),
          λ hash. found hash ∙ rw (nothing_yet hash b none_yet) refl,
        )
      ]
