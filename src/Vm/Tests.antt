-- ===== src/Vm/Tests.antt =====
-- Runs of the theorems on page tables.
use kus_operating_system_pro.Vm.Space.{uvmalloc}
use kus_operating_system_pro.Vm.Alloc.{Grew, uvmalloc-Grew}
use kus_operating_system_pro.Vm.Copyinstr.{IsString, copyinstr-reads}
use kus_operating_system_pro.Kalloc.{is_page}
use kus_operating_system_pro.Vm.Copies.{copyin-copyout}
use kus_operating_system_pro.Vm.Chunk.{user_at}
use kus_operating_system_pro.Vm.Copyin.{IsReadable, copyin-reads, reads}
use kus_operating_system_pro.Vm.Fault.{IsStock}
use kus_operating_system_pro.Vm.User.{copyinstr, copyin, copyout}
use kus_operating_system_pro.Vm.Map.{Remapped, user_pa}
use kus_operating_system_pro.Vm.Copyout.{IsWritable, Wrote, copyout-Wrote, wrote}
use kus_operating_system_pro.Vm.Tree.{IsTree, below, entry_of, leaf, table, width}
use kus_operating_system_pro.Vm.Pages.{mappages-Remapped, with_pages, Unmapped, walkaddr-mappages}
use kus_operating_system_pro.Shared.{
  false, ◌+◌, Option, [], ap, arith, inl, inr, is_in, none, none-some, refl, some, suc, sym, true,
  zero, ℕ, ◌%◌, ◌/◌, ◌<◌, ◌∙◌, ◌∷◌, ◌≡◌, ◌≢◌, ◌⊎◌,
}
use kus_operating_system_pro.Vm.{
  can_free, stalls, is_writable, pa2pte, Vm, Vr, fill_page, fine, go_if, is_valid, kalloc,
  map_entry, mappages, mappages_from, stops, take_page, walk, walk_from, walk_grow, walkaddr,
}

abbrev root : ℕ
root = 0x80100000

-- An empty root table, and three free pages.
abbrev empty : Vm
empty = record {
  words = λ a. 0;
  bytes = λ a. a % 256;
  freelist = 0x80200000 ∷ 0x80201000 ∷ 0x80202000 ∷ [];
  woken = 0;
  place = record { kernel_end = 0x80010000; has_proc = true; lock_held = false };
}

empty-table : (n q t : ℕ) → table empty.words root (suc n) q ≢ some t
unfolding table
empty-table n q t e = by_table (table empty.words root n (q / 512)) e
  where
    by_table : (o : Option ℕ) → below empty.words o (q % 512) ≢ some t
    by_table none e = none-some e
    by_table (some u) e = none-some e

empty-root :
    (n q t : ℕ) → q < width n → table empty.words root n q ≡ some t → (n ≡ 0) × (q ≡ 0) × (t ≡ root)
unfolding table width
empty-root zero q t ql e = let same : root ≡ t = cc in (refl, omega arith, sym same)
empty-root (suc n) q t ql e = absurd (empty-table n q t e)

in_three :
    (b : ℕ) → is_in b empty.freelist ≡ true → (b ≡ 0x80200000) ⊎ (b ≡ 0x80201000) ⊎ (b ≡ 0x80202000)
unfolding is_in
in_three b h = ground (arith, h)

empty-IsTree : IsTree root empty
unfolding is_in
empty-IsTree = record {
  distinct = λ m n p q t ml nl pl ql e g.
      let (a, b, c) = empty-root m p t pl e in
      let (a', b', c') = empty-root n q t ql g in (a ∙ sym a', b ∙ sym b');
  aligned = λ n p t nl pl e. let (a, b, c) = empty-root n p t pl e in ap (λ x. x % 4096) c;
  apart =
      λ n p t nl pl e. let (a, b, c) = empty-root n p t pl e in ap (λ x. is_in x empty.freelist) c;
  free_pages = λ b h. elim (in_three b h) [
    | inl x ↦ (omega arith, omega arith)
    | inr y ↦ elim y [ inl x ↦ (omega arith, omega arith) | inr x ↦ (omega arith, omega arith) ]
  ];
  once = (refl, (refl, (refl, tt)));
}

empty-leaf : (vpn : ℕ) → leaf empty.words root vpn ≡ 0
unfolding leaf
empty-leaf vpn = by_table (table empty.words root 2 (vpn / 512))
  where
    by_table : (o : Option ℕ) → entry_of empty.words o (vpn % 512) ≡ 0
    by_table none = refl
    by_table (some u) = refl

unmapped : Unmapped root empty 5 1
unmapped vpn a b = ap is_valid (empty-leaf vpn)

-- The state once page 5 is mapped.
state_after : {A : Type 0} → Vr A → Vm
state_after (fine a s) = s
state_after (stops e) = empty
state_after (stalls s) = s

abbrev mapped_five : Vm
mapped_five = state_after (mappages root 0x5000 4096 0x80300000 22 empty)

five_mapped : mappages root 0x5000 4096 0x80300000 22 empty ≡ fine true mapped_five
unfolding mappages mappages_from walk walk_from walk_grow kalloc take_page fill_page map_entry go_if
    state_after
five_mapped = refl

walkaddr-mappages_example : walkaddr root 0x5123 mapped_five ≡ fine 0x80300000 mapped_five
walkaddr-mappages_example =
    walkaddr-mappages root 0x5000 4096 0x80300000 22 0x5123 empty mapped_five empty-IsTree refl refl
      (omega arith) (omega arith) refl (omega arith) (omega arith) refl unmapped five_mapped
      (omega arith) (omega arith)

five : Remapped root empty mapped_five (with_pages 1 5 0x80300000 22 (leaf empty.words root))
five =
    mappages-Remapped root 0x5000 4096 0x80300000 22 empty mapped_five empty-IsTree refl refl
      (omega arith) (omega arith) (omega arith) (omega arith) unmapped five_mapped

five_leaf : leaf mapped_five.words root 5 ≡ pa2pte 0x80300000 + 23
five_leaf = five.leaves 5 (unfold width in omega arith)

-- Three bytes in page 5.
five_page :
    (i : ℕ) → i < 3 → leaf mapped_five.words root ((0x5100 + i) / 4096) ≡ pa2pte 0x80300000 + 23
five_page i il =
    let e : (0x5100 + i) / 4096 ≡ 5 = omega arith in ap (leaf mapped_five.words root) e ∙ five_leaf

five_at : (i : ℕ) → i < 3 → user_at mapped_five root (0x5100 + i) ≡ 0x80300100 + i
five_at i il = ap (λ e. user_pa e + (0x5100 + i) % 4096) (five_page i il) ∙ omega arith

five-IsWritable : IsWritable root 0x5100 0x80400000 3 mapped_five
five-IsWritable = record {
  within = omega arith;
  mapped_to = λ i il e.
      let x : 0x80300000 ≡ 0 = sym (ap user_pa (five_page i il)) ∙ e in absurd (omega arith);
  open_to_user = λ i il. ap is_writable (five_page i il);
  alone = λ i j il jl same. let e = sym (five_at i il) ∙ same ∙ five_at j jl in omega arith;
  apart_from = λ i j il jl same. let e = sym (five_at i il) ∙ same in absurd (omega arith);
}

copyout-Wrote_example :
    Wrote root 0x5100 0x80400000 3 mapped_five
      (copyout 0x6000 root root 0x5100 0x80400000 3 mapped_five)
copyout-Wrote_example =
    copyout-Wrote root 0x6000 root 0x5100 0x80400000 3 mapped_five five.tree five-IsWritable

five-IsReadable : IsReadable root 0x80500000 0x5100 3 mapped_five
five-IsReadable = record {
  within = omega arith;
  mapped_to = five-IsWritable.mapped_to;
  apart_from = λ i j il jl same. let e = sym (five_at i il) ∙ same in absurd (omega arith);
}

copyin-reads_example :
    copyin 0x6000 root root 0x80500000 0x5100 3 mapped_five
    ≡ fine true (reads root 0x80500000 0x5100 3 mapped_five)
copyin-reads_example =
    copyin-reads root 0x6000 root 0x80500000 0x5100 3 mapped_five five.tree five-IsReadable

abbrev written_five : Vm
written_five = state_after (copyout 0x6000 root root 0x5100 0x80400000 3 mapped_five)

five_written : copyout 0x6000 root root 0x5100 0x80400000 3 mapped_five ≡ fine true written_five
unfolding state_after
five_written =
    elim (copyout-Wrote root 0x6000 root 0x5100 0x80400000 3 mapped_five five.tree
      five-IsWritable) [ wrote s' e w ↦ e ∙ ap (fine true) (ap state_after (sym e)) ]

copyin-copyout_example :
    (copyin 0x6000 root root 0x80500000 0x5100 3 written_five
      ≡ fine true (reads root 0x80500000 0x5100 3 written_five))
    × ((i : ℕ)
        → i < 3
        → (reads root 0x80500000 0x5100 3 written_five).bytes (0x80500000 + i)
          ≡ mapped_five.bytes (0x80400000 + i))
copyin-copyout_example =
    copyin-copyout root 0x6000 root 0x5100 0x80400000 0x80500000 3 mapped_five written_five
      five.tree five-IsWritable five-IsReadable.apart_from five_written

empty-IsStock : IsStock empty
unfolding is_page
empty-IsStock b h = elim (in_three b h) [
  | inl x ↦ ap (can_free empty.place) x
  | inr y ↦ elim y [ inl x ↦ ap (can_free empty.place) x | inr x ↦ ap (can_free empty.place) x ]
]

-- The characters 254 and 255 stand at 0x50fe.
string_page :
    (i : ℕ) → i < 3 → leaf mapped_five.words root ((0x50fe + i) / 4096) ≡ pa2pte 0x80300000 + 23
string_page i il =
    let e : (0x50fe + i) / 4096 ≡ 5 = omega arith in ap (leaf mapped_five.words root) e ∙ five_leaf

string_at : (i : ℕ) → i < 3 → user_at mapped_five root (0x50fe + i) ≡ 0x803000fe + i
string_at i il = ap (λ e. user_pa e + (0x50fe + i) % 4096) (string_page i il) ∙ omega arith

string-IsReadable : IsReadable root 0x80500000 0x50fe 3 mapped_five
string-IsReadable = record {
  within = omega arith;
  mapped_to = λ i il e.
      let x : 0x80300000 ≡ 0 = sym (ap user_pa (string_page i il)) ∙ e in absurd (omega arith);
  apart_from = λ i j il jl same. let e = sym (string_at i il) ∙ same in absurd (omega arith);
}

bytes_kept : (i : ℕ) → i < 3 → mapped_five.bytes (0x803000fe + i) ≡ (0x803000fe + i) % 256
unfolding mappages mappages_from walk walk_from walk_grow kalloc take_page fill_page map_entry go_if
    state_after
bytes_kept i il = ground arith

page_five-IsString : IsString root 0x50fe 2 mapped_five
page_five-IsString = record {
  chars = λ i il e.
      let x =
        sym (ap mapped_five.bytes (string_at i (omega arith)) ∙ bytes_kept i (omega arith)) ∙ e in
      omega arith;
  end = ap mapped_five.bytes (string_at 2 (omega arith)) ∙ bytes_kept 2 (omega arith);
}

copyinstr-reads_example :
    copyinstr root 0x80500000 0x50fe 16 mapped_five
    ≡ fine true (reads root 0x80500000 0x50fe 3 mapped_five)
copyinstr-reads_example =
    copyinstr-reads root 0x80500000 0x50fe 16 2 mapped_five five.tree (omega arith)
      string-IsReadable page_five-IsString

uvmalloc-Grew_example : Grew root 5 2 22 0x6001 empty (uvmalloc root 0x4f00 0x6001 4 empty)
uvmalloc-Grew_example =
    uvmalloc-Grew root 0x4f00 0x6001 4 empty empty-IsTree empty-IsStock (omega arith) (omega arith)
      (omega arith) (λ v a b. ap is_valid (empty-leaf v))
