-- ===== src/MyFiles/Insertion.antt =====
-- What `insert_MYfile` adds to the shared files is found by the search.
use rounds.Base.{
  ℕ, suc, ◌+◌, ◌≡◌, ◌<◌, ◌≢◌, ==_iff, refl, ap₂, arith, List, [], ◌∷◌, length, ◌==◌, ◌||◌, get_or,
  set, Bool-cases, length-set, get_or-set_self, get_or-set_ne, zero, false, replicate,
  get_or-replicate, sym, ◌∙◌, ℕ_discrete, inl, inr,
}
use rounds.Params.{hash_size}
use rounds.Wire.{dif_str}
use rounds.Wire.Compare.{dif_str-agree}
use rounds.MyFiles.{BufferFile, search_hashfile, str_copy, insert_my_file}
use rounds.MyFiles.Laws.{search_hashfile_lem}

-- No byte is 0.
abbrev pub NoZero : List ℕ → Type 0
NoZero s = (k : ℕ) → k < length s → get_or s k 0 ≢ 0

pub str_copy_lem :
    (hash file : List ℕ) → length hash ≡ length file → NoZero hash → str_copy hash file ≡ hash
unfolding str_copy
str_copy_lem [] [] h z = refl
str_copy_lem [] (d ∷ file) h z = absurd (omega arith)
str_copy_lem (c ∷ hash) [] h z = absurd (omega arith)
str_copy_lem (c ∷ hash) (d ∷ file) h z = elim (Bool-cases (c == 0)) [
  | inl zero_byte ↦ absurd (z 0 (omega arith) ((==_iff c 0).0 zero_byte))
  | inr other ↦
      rw other
        (ap₂ ◌∷◌ refl (str_copy_lem hash file (omega arith) (λ k l. z (suc k) (omega arith))))
]

module _ (hash : List ℕ) (f : List ℕ) (b : BufferFile) (room : b.index < length b.file) where
  -- The search after `f` has been written at `index`.
  search_hashfile-set :
      search_hashfile hash (record { index = b.index + 1; file = set b.file b.index f })
      ≡ (search_hashfile hash b || (dif_str f hash hash_size == 0))
  search_hashfile-set =
      let b' : BufferFile = record { index = b.index + 1; file = set b.file b.index f } in
      let written : get_or b'.file b.index [] ≡ f = get_or-set_self b.file b.index f [] room in
      let kept : ((i : ℕ) → i < b.index → get_or b'.file i [] ≡ get_or b.file i []) =
        λ i l. get_or-set_ne b.file b.index i f [] (λ e. absurd (omega arith)) in
      elim (search_hashfile_lem hash b (omega arith)) [
        | inl (before, i, l, e) ↦
            elim (search_hashfile_lem hash b' (omega (arith, length-set b.file b.index f))) [
              | inl (after, _, _, _) ↦ rw (after, before) refl
              | inr (_, miss) ↦ absurd (miss i (omega arith) (rw (kept i l) e))
            ]
        | inr (before, miss) ↦
            elim (search_hashfile_lem hash b' (omega (arith, length-set b.file b.index f))) [
              | inl (after, i, l, e) ↦ elim (ℕ_discrete i b.index) [
                | yes last ↦ rw (after, before, (==_iff (dif_str f hash hash_size) 0).1 (cc)) refl
                | no other ↦ absurd (miss i (omega arith) (rw (← kept i (omega arith)) e))
              ]
              | inr (after, none_found) ↦ elim (Bool-cases (dif_str f hash hash_size == 0)) [
                | inl same ↦
                    absurd (none_found b.index (omega arith) (rw written ((==_iff _ 0).0 same)))
                | inr other ↦ rw (after, before, other) refl
              ]
            ]
      ]

-- With room in the table, after `insert_my_file` with a hash of 16 bytes none of which is 0, a search
-- finds a hash exactly when it found it before or the first 16 bytes of it are the new hash.
pub insert_my_file-search :
    (md5 : List ℕ → List ℕ) (name : List ℕ) (b : BufferFile) (hash : List ℕ)
    → b.index < length b.file
    → length (get_or b.file b.index []) ≡ hash_size
    → length (md5 name) ≡ hash_size
    → NoZero (md5 name)
    → search_hashfile hash (insert_my_file md5 name b)
      ≡ (search_hashfile hash b || (dif_str (md5 name) hash hash_size == 0))
unfolding insert_my_file
insert_my_file-search md5 name b hash room slot len z =
    rw (str_copy_lem (md5 name) (get_or b.file b.index []) (omega arith) z)
      (search_hashfile-set hash (md5 name) b room)

-- Behind a byte 0 of the hash nothing is copied.
str_copy-behind :
    (hash file : List ℕ) (k j : ℕ)
    → get_or hash k 0 ≡ 0
    → k < j
    → k < length hash
    → length hash ≡ length file
    → get_or (str_copy hash file) j 0 ≡ get_or file j 0
unfolding str_copy
str_copy-behind [] file k j z l h e = absurd (omega arith)
str_copy-behind (c ∷ hash) [] k j z l h e = absurd (omega arith)
str_copy-behind (c ∷ hash) (d ∷ file) k zero z l h e = absurd (omega arith)
str_copy-behind (c ∷ hash) (d ∷ file) zero (suc j) z l h e = rw z refl
str_copy-behind (c ∷ hash) (d ∷ file) (suc k) (suc j) z l h e = elim (Bool-cases (c == 0)) [
  | inl stop ↦ rw stop refl
  | inr other ↦ rw other (str_copy-behind hash file k j z (omega arith) (omega arith) (omega arith))
]

-- With room in the table and zeros in the free cell, a file whose hash of 16 bytes has a byte 0 and
-- behind it one that is not 0 is not found by its hash after it has been inserted, if it was not
-- before.
pub insert_my_file-lost :
    (md5 : List ℕ → List ℕ) (name : List ℕ) (b : BufferFile) (k j : ℕ)
    → b.index < length b.file
    → get_or b.file b.index [] ≡ replicate hash_size 0
    → length (md5 name) ≡ hash_size
    → k < j
    → j < hash_size
    → get_or (md5 name) k 0 ≡ 0
    → get_or (md5 name) j 0 ≢ 0
    → search_hashfile (md5 name) b ≡ false
    → search_hashfile (md5 name) (insert_my_file md5 name b) ≡ false
unfolding insert_my_file
insert_my_file-lost md5 name b k j room slot len l size z set_byte before =
    let hash = md5 name in
    let f = str_copy hash (get_or b.file b.index []) in
    let lost : dif_str f hash hash_size ≢ 0 = λ e. set_byte (
      sym (dif_str-agree hash_size f hash j e size)
      ∙ str_copy-behind hash (get_or b.file b.index []) k j z l (omega arith) (rw (slot, len) refl)
      ∙ rw slot (get_or-replicate hash_size j 0)) in
    search_hashfile-set hash f b room ∙ elim (Bool-cases (dif_str f hash hash_size == 0)) [
      | inl same ↦ absurd (lost ((==_iff _ 0).0 same))
      | inr other ↦ rw (before, other) refl
    ]
