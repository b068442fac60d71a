-- ===== src/Inode/Emptying.antt =====
-- kernel/fs.c, `itrunc`: the two loops in a row, and the empty inode written back.
use kus_operating_system_pro.Inode.{
  finish_trunc, iblock, itrunc, iupdate, Inode, ndirect, nindirect, trunc_direct, trunc_indirect,
  trunc_words,
}
use kus_operating_system_pro.Fs.{bblock, bit_clear, bpb, Disk, Superblock, bfree}
use kus_operating_system_pro.Shared.{
  Bool-cases, inl, inr, not, true, update_ne, ◌%◌, ◌&&◌, ◌/◌, ◌<◌, Bool, Option, ap, arith, false,
  none, refl, some, update, ℕ, ◌==◌, ◌∙◌, ◌≡◌, ◌≢◌, ◌≤◌,
}
use kus_operating_system_pro.Inode.Itrunc.{
  Emptied, IsOwn, direct-CanFree, direct-Emptied, gone, indirect-Emptied,
}
use kus_operating_system_pro.Inode.Truncate.{bind, cleared, trunc_direct-free_run, with_disk}
use kus_operating_system_pro.Inode.Release.{free_run-Released, listed}
use kus_operating_system_pro.Inode.Blocks.{IsFile}
use kus_operating_system_pro.Fs.Blocks.{is_used}
use native.Mathlib.Decide.{ℕ_discrete}

bind-some : (ip : Inode) (r : Option Disk) → bind (λ d. some (ip, d)) r ≡ with_disk ip r
unfolding with_disk
bind-some ip none = refl
bind-some ip (some d) = refl

bind-bind :
    (ip : Inode) (f : Disk → Option Disk) (r : Option Disk)
    → bind (λ d. bind (λ e. some (ip, e)) (f d)) r ≡ with_disk ip (bind f r)
unfolding with_disk
bind-bind ip f none = refl
bind-bind ip f (some d) = bind-some ip (f d)

trunc_indirect-bind :
    (sb : Superblock) (ip : Inode) (d : Disk)
    → ip.addrs ndirect ≢ 0
    → trunc_indirect sb ip d
      ≡ with_disk
          (record ip { addrs = update ip.addrs ndirect 0 })
          (bind (bfree sb (ip.addrs ndirect)) (trunc_words sb (d (ip.addrs ndirect)) nindirect 0 d))
unfolding trunc_indirect
trunc_indirect-bind sb ip d nz =
    let t : (ip.addrs ndirect == 0) ≡ false = ground arith in
    rw t (
      bind-bind (record ip { addrs = update ip.addrs ndirect 0 }) (bfree sb (ip.addrs ndirect))
        (trunc_words sb (d (ip.addrs ndirect)) nindirect 0 d))

-- What the two loops have done.
record Loops (sb : Superblock) (ip : Inode) (d : Disk) : Type 0 where
  table : ℕ → ℕ
  d' : Disk
  picked : ℕ → Bool
  direct : Inode × Disk
  first : trunc_direct sb ndirect 0 ip d ≡ some direct
  second : trunc_indirect sb (direct.0) (direct.1) ≡ some (record ip { addrs = table }, d')
  cleared_all : (n : ℕ) → n ≤ ndirect → table n ≡ 0
  emptied : Emptied sb ip d picked d'

IsFile-Loops : (sb : Superblock) (ip : Inode) (d : Disk) → IsFile sb ip d → Loops sb ip d
unfolding trunc_indirect with_disk cleared
IsFile-Loops sb ip d f =
    let (d₁, e, r) = free_run-Released sb ip.addrs ndirect 0 d (direct-CanFree sb ip d f) in
    let jp : Inode = record ip { addrs = cleared ndirect 0 ip.addrs } in
    let first = trunc_direct-free_run sb ndirect 0 ip d ∙ ap (with_disk jp) e in
    elim (ℕ_discrete (ip.addrs ndirect) 0) [
      | yes z ↦ record {
        table = cleared ndirect 0 ip.addrs;
        d' = d₁;
        picked = listed ip.addrs ndirect 0;
        direct = (jp, d₁);
        first = first;
        second = (let t : (ip.addrs ndirect == 0) ≡ true = ground arith in rw t refl);
        cleared_all = λ n le. ground (arith, λ (e : n ≡ ndirect). ap ip.addrs e ∙ z);
        emptied = direct-Emptied sb ip d f d₁ z r;
      }
      | no nz ↦
          let (d₃, e', k) = indirect-Emptied sb ip d f d₁ r nz in
          record {
            table = update (cleared ndirect 0 ip.addrs) ndirect 0;
            d' = d₃;
            picked = gone sb ip d f d₁ r nz;
            direct = (jp, d₁);
            first = first;
            second = trunc_indirect-bind sb jp d₁ nz ∙ ap (with_disk _) e';
            cleared_all = λ n le. ground arith;
            emptied = k;
          }
    ]

itrunc_loops :
    (sb : Superblock) (ip : Inode) (d : Disk) (r q : Inode × Disk)
    → trunc_direct sb ndirect 0 ip d ≡ some r
    → trunc_indirect sb (r.0) (r.1) ≡ some q
    → itrunc sb ip d ≡ some (finish_trunc sb (q.0) (q.1))
unfolding itrunc
itrunc_loops sb ip d r q e e' = ap behind_direct e ∙ ap behind_indirect e'
  where
    behind_indirect : Option (Inode × Disk) → Option (Inode × Disk)
    behind_indirect none = none
    behind_indirect (some (ip', d')) = some (finish_trunc sb ip' d')

    behind_direct : Option (Inode × Disk) → Option (Inode × Disk)
    behind_direct none = none
    behind_direct (some (ip', d')) = behind_indirect (trunc_indirect sb ip' d')

-- What `itrunc` has done.
pub record Truncated (sb : Superblock) (ip : Inode) (d : Disk) : Type 0 where
  pub ip' : Inode
  pub d' : Disk
  pub returns : itrunc sb ip d ≡ some (ip', d')
  pub no_size : ip'.size ≡ 0
  pub no_addrs : (n : ℕ) → n ≤ ndirect → ip'.addrs n ≡ 0
  pub freed : (x : ℕ) → x < sb.size → IsOwn ip d x → is_used sb d' x ≡ false
  pub kept : (x : ℕ) → x < sb.size → ¬ IsOwn ip d x → is_used sb d' x ≡ is_used sb d x
  pub others :
      (y : ℕ)
      → ((x : ℕ) → x < sb.size → bblock x sb ≢ y)
      → y ≢ iblock ip.inum sb
      → (a : ℕ) → d' y a ≡ d y a

-- `itrunc` of a well-formed file never panics: it frees the file's parts and its indirect block, and
-- no other block, leaves an inode of size 0 without addresses, and writes to no block but the free
-- map and the inode's.
pub itrunc-Truncated :
    (sb : Superblock) (ip : Inode) (d : Disk)
    → IsFile sb ip d
    → ((x : ℕ) → x < sb.size → bblock x sb ≢ iblock ip.inum sb)
    → Truncated sb ip d
unfolding itrunc finish_trunc iupdate
itrunc-Truncated sb ip d f apart =
    let l = IsFile-Loops sb ip d f in
    let rest = l.emptied in
    let used' : (x : ℕ)
        → x < sb.size
        → is_used sb (iupdate sb (record ip { size = 0; addrs = l.table }) l.d') x
          ≡ (not (l.picked x) && is_used sb d x) =
      λ x lt.
        ap (λ (h : ℕ → ℕ). not (bit_clear (x % bpb) (h (x % bpb / 8))))
          (update_ne l.d' _ (apart x lt))
        ∙ rest.released.used x in
    record {
      ip' = record ip { size = 0; addrs = l.table };
      d' = iupdate sb (record ip { size = 0; addrs = l.table }) l.d';
      returns =
          itrunc_loops sb ip d l.direct (record ip { addrs = l.table }, l.d') l.first l.second;
      no_size = refl;
      no_addrs = l.cleared_all;
      freed = λ x lt o. used' x lt ∙ ground (arith, rest.all x o);
      kept = λ x lt no_own. used' x lt ∙ elim (Bool-cases (l.picked x)) [
        | inl t ↦ absurd (no_own (rest.own x t))
        | inr t ↦ rw t refl
      ];
      others =
          λ y o ne a. ap (λ (h : ℕ → ℕ). h a) (update_ne l.d' _ ne) ∙ rest.released.others y o a;
    }
