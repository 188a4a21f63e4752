-- ===== src/Sharing/Names.antt =====
-- What `list_dir` adds to the table of the shared files.
use rounds.Base.{
  ℕ, ◌+◌, ◌≡◌, ◌≤◌, ◌<◌, inl, inr, refl, subst, ap, ◌∙◌, arith, Bool, true, false, ◌&&◌, ◌||◌, ◌==◌,
  some, List, [], ◌∷◌, ◌++◌, length, get_or, set, Bool-cases, length-set, get_or-set_self,
  get_or-set_ne, ℕ_discrete, bit, lt→ltb,
}
use rounds.Params.{hash_size}
use rounds.Wire.{dif_str}
use rounds.MyFiles.{BufferFile, search_hashfile, insert_my_file}
use rounds.MyFiles.Insertion.{NoZero, insert_my_file-search, str_copy_lem}
use rounds.Settings.{percorso_size}
use rounds.Sharing.{Disk, stringa_size, max_file, is_shared, copy_ends, share_name, list_names}

-- The table has its size, and each of its hashes is 16 bytes, whatever bytes these are.
pub record TableFits (b : BufferFile) : Type 0 where
  pub size : length b.file ≡ max_file
  pub rows : (i : ℕ) → i < max_file → length (get_or b.file i []) ≡ hash_size

pub or_false : (b : Bool) → b ≡ (b || false)
or_false true = refl
or_false false = refl

pub or_assoc : (a b c : Bool) → ((a || b) || c) ≡ (a || (c || b))
or_assoc true b c = refl
or_assoc false true true = refl
or_assoc false true false = refl
or_assoc false false true = refl
or_assoc false false false = refl

insert-index :
    (md5 : List ℕ → List ℕ) (name : List ℕ) (b : BufferFile)
    → (insert_my_file md5 name b).index ≡ b.index + 1
unfolding insert_my_file
insert-index md5 name b = refl

module _ (md5 : List ℕ → List ℕ) (disk : Disk) where
  -- The paths fit into the arrays, the hashes of the files that are shared have no byte 0, and one
  -- stands behind them so near that the copy of the hash ends within a cell of the table.
  abbrev pub NameFits : List ℕ → List ℕ → Type 0
  NameFits percorso name =
      (length (percorso ++ name) < stringa_size)
      × (is_shared disk (percorso ++ name) name ≡ true
          → (length (percorso ++ name) < percorso_size)
            × NoZero (md5 name)
            × (copy_ends md5 disk name ≡ true))

  abbrev pub NamesFit : List ℕ → List (List ℕ) → Type 0
  NamesFit percorso [] = Unit {0}
  NamesFit percorso (name ∷ names) = NameFits percorso name × NamesFit percorso names

  -- How many of the names are shared, and whether one of these has the hash.
  abbrev pub count_shared : List ℕ → List (List ℕ) → ℕ
  count_shared percorso [] = 0
  count_shared percorso (name ∷ names) =
      bit (is_shared disk (percorso ++ name) name) + count_shared percorso names

  abbrev pub has_hash : List ℕ → List ℕ → List (List ℕ) → Bool
  has_hash hash percorso [] = false
  has_hash hash percorso (name ∷ names) =
      (is_shared disk (percorso ++ name) name && (dif_str (md5 name) hash hash_size == 0))
      || has_hash hash percorso names

-- MD5 gives 16 bytes.
module _ (md5 : List ℕ → List ℕ) (disk : Disk)
    (len : (s : List ℕ) → length (md5 s) ≡ hash_size) where
  insert-TableFits :
      (name : List ℕ) (b : BufferFile)
      → TableFits b
      → b.index < max_file
      → NoZero (md5 name)
      → TableFits (insert_my_file md5 name b)
  unfolding insert_my_file
  insert-TableFits name b v room z =
      rw
        (str_copy_lem (md5 name) (get_or b.file b.index [])
          (omega (arith, len name, v.rows b.index room)) z)
        (record {
          size = length-set b.file b.index (md5 name) ∙ v.size;
          rows = λ i l. elim (ℕ_discrete b.index i) [
            | yes same ↦
                subst (λ k. length (get_or (set b.file b.index (md5 name)) k []) ≡ hash_size) same
                  (ap length (get_or-set_self b.file b.index (md5 name) [] (omega (arith, v.size)))
                    ∙ len name)
            | no other ↦ ap length (get_or-set_ne b.file b.index i (md5 name) [] other) ∙ v.rows i l
          ];
        })

  -- A name with room in the table: it is shared, or nothing changes.
  share_name_lem :
      (percorso name : List ℕ) (b : BufferFile)
      → TableFits b
      → NameFits md5 disk percorso name
      → b.index + bit (is_shared disk (percorso ++ name) name) ≤ max_file
      → (b' : BufferFile) × (share_name md5 disk percorso name b ≡ some b')
        × TableFits b'
        × (b'.index ≡ b.index + bit (is_shared disk (percorso ++ name) name))
        × ((hash : List ℕ)
            → search_hashfile hash b' ≡ (
                search_hashfile hash b
                || (is_shared disk (percorso ++ name) name
                    && (dif_str (md5 name) hash hash_size == 0))))
  unfolding share_name
  share_name_lem percorso name b v (short, fits) room =
      elim (Bool-cases (is_shared disk (percorso ++ name) name)) [
        | inr not_shared ↦ (
          b,
          rw (lt→ltb (length (percorso ++ name)) stringa_size short, not_shared) refl,
          v,
          omega (arith, ap bit not_shared),
          λ hash. rw not_shared (or_false (search_hashfile hash b)),
        )
        | inl shared ↦
            let (fits_too, z, ends) = fits shared in
            let free : b.index < max_file = omega (arith, ap bit shared) in
            (
              insert_my_file md5 name b,
              rw
                  (
                    lt→ltb (length (percorso ++ name)) stringa_size short,
                    shared,
                    lt→ltb (length (percorso ++ name)) percorso_size fits_too,
                    lt→ltb b.index max_file free,
                    ends,
                  )
                  refl,
              insert-TableFits name b v free z,
              omega (arith, ap bit shared, insert-index md5 name b),
              λ hash. rw shared (
                  insert_my_file-search md5 name b hash (omega (arith, v.size))
                    (v.rows b.index free) (len name) z),
            )
      ]

  -- The names of a directory that fit, with room in the table for those that are shared: the table
  -- holds their hashes besides those before.
  pub list_names_lem :
      (percorso : List ℕ) (names : List (List ℕ)) (b : BufferFile)
      → TableFits b
      → NamesFit md5 disk percorso names
      → b.index + count_shared md5 disk percorso names ≤ max_file
      → (b' : BufferFile) × (list_names md5 disk percorso names b ≡ some b')
        × TableFits b'
        × (b'.index ≡ b.index + count_shared md5 disk percorso names)
        × ((hash : List ℕ)
            → search_hashfile hash b'
              ≡ (search_hashfile hash b || has_hash md5 disk hash percorso names))
  unfolding list_names
  list_names_lem percorso [] b v fit room =
      (b, refl, v, omega arith, λ hash. or_false (search_hashfile hash b))
  list_names_lem percorso (name ∷ names) b v (fits, fit) room =
      let (b1, e1, v1, i1, found1) = list_names_lem percorso names b v fit (omega arith) in
      let (b2, e2, v2, i2, found2) = share_name_lem percorso name b1 v1 fits (omega (arith, i1)) in
      (
        b2,
        rw (e1, e2) refl,
        v2,
        omega (arith, i1, i2),
        λ hash.
            found2 hash
            ∙ rw (found1 hash) (
                or_assoc (search_hashfile hash b) (has_hash md5 disk hash percorso names) (
                  is_shared disk (percorso ++ name) name
                  && (dif_str (md5 name) hash hash_size == 0))),
      )
