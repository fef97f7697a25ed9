-- ===== src/Format/Elf/Collected.antt =====
-- The section lists of an ELF file against the list of its section headers:
-- src/disassembler/format/elf/elf_sections.hpp.
use voidwalk.Common.{
  ℕ, zero, suc, if◌then◌else◌, ◌≡◌, refl, Bool, true, false, List, [], ◌∷◌, ◌++◌, some, Result, ok,
  err, ◌>>=◌, codes, bytes_eq, String, Bool-cases, inl, inr, sym, ap, ◌∙◌, Result-cases, >>=-eq-ok,
  bytes_eq→eq, All, Option-cases, ◌≢◌,
}
use mathlib.Core.Path.{subst}
use mathlib.Core.List.{append_assoc, append-nil}
use voidwalk.Format.Section.{Header}
use voidwalk.Format.Elf.{
  Entry, Found, Store, to_text, to_data, to_rodata, to_bss, to_symtab, to_dynsym, to_strtab,
  to_dynstr, to_plt, to_got, to_eh_frame, find, store, handle, section_handlers, for_sections,
}

-- The entries that the loop reads, in table order.
unfoldable pub read_entries : (ℕ → Result Entry) → ℕ → ℕ → Result (List Entry)
read_entries read index zero = ok []
read_entries read index (suc left) = do
  e ← read index
  es ← read_entries read (suc index) left
  ok (e ∷ es)

collect : List Entry → Found → Found
collect [] f = f
collect ((name, h) ∷ es) f = collect es (handle name h f)

-- The headers of the sections of one name, in table order.
unfoldable pub named : String → List Entry → List Header
named key [] = []
named key ((name, h) ∷ es) = if bytes_eq (codes key) name then h ∷ named key es else named key es

for_sections-collect :
    (read : ℕ → Result Entry) (index left : ℕ) (f : Found)
    → for_sections read index left f ≡ (read_entries read index left >>= λ es. ok (collect es f))
unfolding for_sections read_entries collect
for_sections-collect read index zero f = refl
for_sections-collect read index (suc left) f = elim (Result-cases (read index)) [
  | inr (x, e) ↦ rw e
  | inl ((name, h), e) ↦
      rw (e, for_sections-collect read (suc index) left (handle name h f))
        (push name h (read_entries read (suc index) left))
]
  where
    push :
        (name : List ℕ) (h : Header) (r : Result (List Entry))
        → (r >>= λ es. ok (collect es (handle name h f)))
          ≡ ((r >>= λ es. ok ((name, h) ∷ es)) >>= λ es. ok (collect es f))
    push name h (ok es) = refl
    push name h (err x) = refl

key_of : Store → String
key_of to_text = ".text"
key_of to_data = ".data"
key_of to_rodata = ".rodata"
key_of to_bss = ".bss"
key_of to_symtab = ".symtab"
key_of to_dynsym = ".dynsym"
key_of to_strtab = ".strtab"
key_of to_dynstr = ".dynstr"
key_of to_plt = ".plt"
key_of to_got = ".got"
key_of to_eh_frame = ".eh_frame"

abbrev Keyed : List (String × Store) → Type 0
Keyed = All (λ p. p.0 ≡ key_of p.1)

-- A handler is found under its own name only.
find-key :
    (hs : List (String × Store)) (name : List ℕ) (s : Store)
    → Keyed hs
    → find hs name ≡ some s
    → bytes_eq (codes (key_of s)) name ≡ true
unfolding find
find-key [] name s k e = cc
find-key ((key, t) ∷ hs) name s (k, ks) e = elim (Bool-cases (bytes_eq (codes key) name)) [
  | inl same ↦ rw (← some_eq t s (rw (same) at e)) (rw (← k) same)
  | inr other ↦ find-key hs name s ks (rw other at e)
]
  where
    some_eq : (a b : Store) → some a ≡ some b → a ≡ b
    some_eq a b p = cc

section_handlers-Keyed : Keyed section_handlers
unfolding key_of
section_handlers-Keyed =
    (refl, (refl, (refl, (refl, (refl, (refl, (refl, (refl, (refl, (refl, (refl, tt)))))))))))

-- What an entry of another name does not touch.
store-ne :
    (s : Store) (h : Header) (f : Found)
    → (s ≢ to_text → (store s h f).common.text ≡ f.common.text)
      × (s ≢ to_data → (store s h f).common.data_sections ≡ f.common.data_sections)
      × (s ≢ to_rodata → (store s h f).common.read_only ≡ f.common.read_only)
      × (s ≢ to_bss → (store s h f).common.bss ≡ f.common.bss)
unfolding store
store-ne to_text h f = (λ n. absurd (n refl), λ n. refl, λ n. refl, λ n. refl)
store-ne to_data h f = (λ n. refl, λ n. absurd (n refl), λ n. refl, λ n. refl)
store-ne to_rodata h f = (λ n. refl, λ n. refl, λ n. absurd (n refl), λ n. refl)
store-ne to_bss h f = (λ n. refl, λ n. refl, λ n. refl, λ n. absurd (n refl))
store-ne _ h f = (λ n. refl, λ n. refl, λ n. refl, λ n. refl)

-- One entry, for the list `pick` that the handler `s` fills.
handle-list :
    (s : Store) (pick : Found → List Header) (name : List ℕ) (h : Header) (f : Found)
    → find section_handlers (codes (key_of s)) ≡ some s
    → pick (store s h f) ≡ pick f ++ h ∷ []
    → ((t : Store) → t ≢ s → pick (store t h f) ≡ pick f)
    → pick (handle name h f)
      ≡ (if bytes_eq (codes (key_of s)) name then pick f ++ h ∷ [] else pick f)
unfolding handle
handle-list s pick name h f own wrote kept = elim (Bool-cases (bytes_eq (codes (key_of s)) name)) [
  | inl e ↦ rw (e, ← bytes_eq→eq (codes (key_of s)) name e, own) wrote
  | inr e ↦ rw e (elim (Option-cases (find section_handlers name)) [
    | inl none_found ↦ rw none_found
    | inr (t, found) ↦ rw found (
        kept t
          (λ q. cc (find-key section_handlers name t section_handlers-Keyed found, e, ap key_of q)))
  ])
]

handle_text :
    (name : List ℕ) (h : Header) (f : Found)
    → (handle name h f).common.text
      ≡ (if bytes_eq (codes ".text") name then f.common.text ++ h ∷ [] else f.common.text)
unfolding key_of find store
handle_text name h f =
    handle-list to_text (λ g. g.common.text) name h f refl refl (λ t. (store-ne t h f).0)

handle_data :
    (name : List ℕ) (h : Header) (f : Found)
    → (handle name h f).common.data_sections ≡ (
        if bytes_eq (codes ".data") name
        then f.common.data_sections ++ h ∷ []
        else f.common.data_sections)
unfolding key_of find store
handle_data name h f =
    handle-list to_data (λ g. g.common.data_sections) name h f refl refl (λ t. (store-ne t h f).1)

handle_rodata :
    (name : List ℕ) (h : Header) (f : Found)
    → (handle name h f).common.read_only ≡ (
        if bytes_eq (codes ".rodata") name
        then f.common.read_only ++ h ∷ []
        else f.common.read_only)
unfolding key_of find store
handle_rodata name h f =
    handle-list to_rodata (λ g. g.common.read_only) name h f refl refl (λ t. (store-ne t h f).2)

handle_bss :
    (name : List ℕ) (h : Header) (f : Found)
    → (handle name h f).common.bss
      ≡ (if bytes_eq (codes ".bss") name then f.common.bss ++ h ∷ [] else f.common.bss)
unfolding key_of find store
handle_bss name h f =
    handle-list to_bss (λ g. g.common.bss) name h f refl refl (λ t. (store-ne t h f).3)

-- The four lists after the loop, from the entries alone.
abbrev pub HasLists : List Entry → Found → Found → Type 0
HasLists es f g =
    (g.common.text ≡ f.common.text ++ named ".text" es)
    × (g.common.data_sections ≡ f.common.data_sections ++ named ".data" es)
    × (g.common.read_only ≡ f.common.read_only ++ named ".rodata" es)
    × (g.common.bss ≡ f.common.bss ++ named ".bss" es)

extend_list :
    (xs ys rest : List Header) (h : Header) (b : Bool) {zs : List Header}
    → zs ≡ ys ++ rest
    → ys ≡ (if b then xs ++ h ∷ [] else xs)
    → zs ≡ xs ++ (if b then h ∷ rest else rest)
extend_list xs ys rest h true e p = e ∙ rw p (append_assoc xs (h ∷ []) rest)
extend_list xs ys rest h false e p = e ∙ rw p

collect-HasLists : (es : List Entry) (f : Found) → HasLists es f (collect es f)
unfolding collect named
collect-HasLists [] f =
    (sym (append-nil _), sym (append-nil _), sym (append-nil _), sym (append-nil _))
collect-HasLists ((name, h) ∷ es) f =
    let (t, d, r, b) = collect-HasLists es (handle name h f) in
    (
      extend_list _ _ _ h _ t (handle_text name h f),
      extend_list _ _ _ h _ d (handle_data name h f),
      extend_list _ _ _ h _ r (handle_rodata name h f),
      extend_list _ _ _ h _ b (handle_bss name h f),
    )

-- The loop over the table, when it ends well.
pub for_sections-HasLists :
    (read : ℕ → Result Entry) (count : ℕ) (f found : Found)
    → for_sections read 0 count f ≡ ok found
    → (es : List Entry) × (read_entries read 0 count ≡ ok es) × HasLists es f found
for_sections-HasLists read count f found e =
    let (es, r, c) =
      >>=-eq-ok (read_entries read 0 count) _ (sym (for_sections-collect read 0 count f) ∙ e) in
    (es, r, subst (HasLists es f) (ok_eq (collect es f) found c) (collect-HasLists es f))
  where
    ok_eq : (a b : Found) → ok a ≡ ok b → a ≡ b
    ok_eq a b p = cc
