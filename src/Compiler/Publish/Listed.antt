-- ===== src/Compiler/Publish/Listed.antt =====
-- The blocklists of a directory, the largest first.
use haproxy_spoa_firehol_mmd.Prelude.{
  ℕ, suc, ◌<◌, ◌⊎◌, ◌==◌, ltb, bytes_eq, bytes_eq→eq, ◌+◌, ◌≡◌, refl, Bool, true, false, ◌&&◌, ◌||◌,
  List, [], ◌∷◌, ◌++◌, arith, if◌then◌else◌, Bool-cases, inl, inr, append_assoc, append-nil, sym,
  ◌∙◌,
}
use haproxy_spoa_firehol_mmd.Prelude.Text.{ascii}
use haproxy_spoa_firehol_mmd.Spoa.Categories.{bytes_lt}
use mathlib.Core.List.{Perm}
use mathlib.Core.List.Perm
use haproxy_spoa_firehol_mmd.Spoa.Categories.Names.{bytes_lt_asym}
use haproxy_spoa_firehol_mmd.Compiler.Publish.{
  Entry, BlocklistFile, Listing, is_ipset, is_netset, list_entry, list_entries, is_before,
  insert_file, sort_files, list_blocklists,
}

-- A name is a prefix of another, or has the smaller byte where they first differ.
abbrev pub IsUpTo : List ℕ → List ℕ → Type 0
IsUpTo [] ys = Unit
IsUpTo (x ∷ xs) [] = ⊥
IsUpTo (x ∷ xs) (y ∷ ys) = (x < y) ⊎ ((x ≡ y) × IsUpTo xs ys)

-- A file is larger than another, or as large, with a name up to the other's.
abbrev pub IsAhead : BlocklistFile → BlocklistFile → Type 0
IsAhead a b = (b.size < a.size) ⊎ ((a.size ≡ b.size) × IsUpTo a.path b.path)

-- Each file is ahead of the next one.
abbrev pub IsOrdered : List BlocklistFile → Type 0
IsOrdered [] = Unit
IsOrdered (a ∷ []) = Unit
IsOrdered (a ∷ b ∷ bs) = IsAhead a b × IsOrdered (b ∷ bs)

bytes_lt-IsUpTo : (xs ys : List ℕ) → bytes_lt ys xs ≡ false → IsUpTo xs ys
unfolding bytes_lt
bytes_lt-IsUpTo [] ys h = tt
bytes_lt-IsUpTo (x ∷ xs) [] h = absurd cc
bytes_lt-IsUpTo (x ∷ xs) (y ∷ ys) h = elim (Bool-cases (ltb x y)) [
  | inl less ↦ inl (ground arith)
  | inr not_less ↦ inr (ground arith, bytes_lt-IsUpTo xs ys (ground arith))
]

is_before-IsAhead : (a b : BlocklistFile) → is_before b a ≡ false → IsAhead a b
unfolding is_before
is_before-IsAhead a b h = elim (Bool-cases (b.size == a.size)) [
  | inl same ↦ inr (ground arith, bytes_lt-IsUpTo a.path b.path (ground arith))
  | inr other ↦ inl (ground arith)
]

is_before_asym : (a b : BlocklistFile) → is_before a b ≡ true → is_before b a ≡ false
unfolding is_before
is_before_asym a b h = ground (arith, bytes_lt_asym a.path b.path)

insert_behind :
    (c a : BlocklistFile) (bs : List BlocklistFile)
    → IsOrdered (c ∷ bs)
    → IsAhead c a
    → IsOrdered (c ∷ insert_file a bs)
unfolding insert_file
insert_behind c a [] s h = (h, tt)
insert_behind c a (b ∷ bs) (hc, s) h = elim (Bool-cases (is_before b a)) [
  | inl first ↦
      rw first (hc, insert_behind b a bs s (is_before-IsAhead b a (is_before_asym b a first)))
  | inr here ↦ rw here (h, (is_before-IsAhead a b here, s))
]

insert_file-IsOrdered :
    (a : BlocklistFile) (bs : List BlocklistFile) → IsOrdered bs → IsOrdered (insert_file a bs)
unfolding insert_file
insert_file-IsOrdered a [] s = tt
insert_file-IsOrdered a (b ∷ bs) s = elim (Bool-cases (is_before b a)) [
  | inl first ↦ rw first (insert_behind b a bs s (is_before-IsAhead b a (is_before_asym b a first)))
  | inr here ↦ rw here (is_before-IsAhead a b here, s)
]

sort_files-IsOrdered : (bs : List BlocklistFile) → IsOrdered (sort_files bs)
unfolding sort_files
sort_files-IsOrdered [] = tt
sort_files-IsOrdered (b ∷ bs) = insert_file-IsOrdered b (sort_files bs) (sort_files-IsOrdered bs)

insert_file-Perm : (a : BlocklistFile) (bs : List BlocklistFile) → Perm (insert_file a bs) (a ∷ bs)
unfolding insert_file
insert_file-Perm a [] = Perm.refl (a ∷ [])
insert_file-Perm a (b ∷ bs) = elim (Bool-cases (is_before b a)) [
  | inl first ↦ rw first (Perm.trans (Perm.cons b (insert_file-Perm a bs)) (Perm.swap a b bs))
  | inr here ↦ rw here (Perm.refl (a ∷ b ∷ bs))
]

sort_files-Perm : (bs : List BlocklistFile) → Perm (sort_files bs) bs
unfolding sort_files
sort_files-Perm [] = Perm.refl []
sort_files-Perm (b ∷ bs) =
    Perm.trans (insert_file-Perm b (sort_files bs)) (Perm.cons b (sort_files-Perm bs))

-- The entry is a regular file with the extension.
abbrev pub has_kind : List ℕ → Entry → Bool
has_kind extension e = e.is_regular_file && bytes_eq e.extension extension

abbrev pub is_blocklist : Entry → Bool
is_blocklist e = has_kind (ascii ".ipset") e || has_kind (ascii ".netset") e

abbrev pub count_kind : List ℕ → List Entry → ℕ
count_kind extension [] = 0
count_kind extension (e ∷ es) =
    let rest = count_kind extension es in if has_kind extension e then suc rest else rest

-- The blocklists among the entries, in the order of the directory.
abbrev pub blocklists : List Entry → List BlocklistFile
blocklists [] = []
blocklists (e ∷ es) =
    let rest = blocklists es in
    if is_blocklist e then record { path = e.name; size = e.file_size } ∷ rest else rest

abbrev found : Entry → List BlocklistFile
found e = if is_blocklist e then record { path = e.name; size = e.file_size } ∷ [] else []

abbrev one_kind : List ℕ → Entry → ℕ
one_kind extension e = if has_kind extension e then 1 else 0

found-blocklists : (e : Entry) (es : List Entry) → blocklists (e ∷ es) ≡ found e ++ blocklists es
found-blocklists e es = ground arith

-- The two extensions exclude each other.
ipset_only :
    (e : Entry)
    → bytes_eq e.extension (ascii ".ipset") ≡ true
    → bytes_eq e.extension (ascii ".netset") ≡ false
unfolding bytes_eq
ipset_only e h = (let same = bytes_eq→eq e.extension (ascii ".ipset") h in rw same refl)

list_entry-found :
    (e : Entry) (l : Listing)
    → ((list_entry e l).files ≡ l.files ++ found e)
      × ((list_entry e l).ipset_count ≡ l.ipset_count + one_kind (ascii ".ipset") e)
      × ((list_entry e l).netset_count ≡ l.netset_count + one_kind (ascii ".netset") e)
unfolding list_entry is_ipset is_netset
list_entry-found e l = by_kind e.is_regular_file _ _ refl refl refl
  where
    by_kind :
        (r i n : Bool)
        → e.is_regular_file ≡ r
        → bytes_eq e.extension (ascii ".ipset") ≡ i
        → bytes_eq e.extension (ascii ".netset") ≡ n
        → ((list_entry e l).files ≡ l.files ++ found e)
          × ((list_entry e l).ipset_count ≡ l.ipset_count + one_kind (ascii ".ipset") e)
          × ((list_entry e l).netset_count ≡ l.netset_count + one_kind (ascii ".netset") e)
    by_kind false i n er ei en = simp er (sym (append-nil l.files), omega arith, omega arith)
    by_kind true true n er ei en = simp (er, ei, ipset_only e ei) (refl, omega arith, omega arith)
    by_kind true false true er ei en = simp (er, ei, en) (refl, omega arith, omega arith)
    by_kind true false false er ei en =
        simp (er, ei, en) (sym (append-nil l.files), omega arith, omega arith)

count-one :
    (extension : List ℕ) (e : Entry) (es : List Entry)
    → count_kind extension (e ∷ es) ≡ one_kind extension e + count_kind extension es
count-one extension e es = ground arith

list_entries-blocklists :
    (es : List Entry) (l : Listing)
    → ((list_entries es l).files ≡ l.files ++ blocklists es)
      × ((list_entries es l).ipset_count ≡ l.ipset_count + count_kind (ascii ".ipset") es)
      × ((list_entries es l).netset_count ≡ l.netset_count + count_kind (ascii ".netset") es)
unfolding list_entries
list_entries-blocklists [] l = (sym (append-nil l.files), omega arith, omega arith)
list_entries-blocklists (e ∷ es) l =
    let (files, ipsets, netsets) = list_entry-found e l in
    let (files', ipsets', netsets') = list_entries-blocklists es (list_entry e l) in
    (
      files' ∙ (rw (files, found-blocklists e es) (append_assoc l.files (found e) (blocklists es))),
      omega (arith, ipsets, ipsets', count-one (ascii ".ipset") e es),
      omega (arith, netsets, netsets', count-one (ascii ".netset") e es),
    )

-- The files are exactly the regular files of the directory with one of the two extensions, the larger
-- one in front and by name where the size is the same, and each count is the number of regular files with
-- its extension.
pub list_blocklists_lem :
    (entries : List Entry)
    → Perm (list_blocklists entries).files (blocklists entries)
      × IsOrdered (list_blocklists entries).files
      × ((list_blocklists entries).ipset_count ≡ count_kind (ascii ".ipset") entries)
      × ((list_blocklists entries).netset_count ≡ count_kind (ascii ".netset") entries)
unfolding list_blocklists
list_blocklists_lem entries =
    let empty : Listing = record { files = []; ipset_count = 0; netset_count = 0 } in
    let (files, ipsets, netsets) = list_entries-blocklists entries empty in
    let listed = (list_entries entries empty).files in
    let perm : Perm (sort_files listed) (blocklists entries) =
      rw (sym files) (sort_files-Perm listed) in
    (perm, sort_files-IsOrdered listed, omega (arith, ipsets), omega (arith, netsets))
