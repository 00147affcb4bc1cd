-- ===== src/Mm/PageTable/Apart.antt =====
-- mm/mmap.c: a fork and then a page fault on one of its two sides, as the other side sees it.
use mini_os.Prelude.{ℕ, ◌+◌, ◌≡◌, ◌≢◌, ap, ◌∙◌, true, some, arith}
use mini_os.Mm.Mmap.{VmAreaStruct}
use mini_os.Prelude.{List}
use mini_os.Mm.PageTable.{
  Pte, Entry, Entries, Frames, Access, find_pte, pte_write, pte_wrprotect, do_page_fault,
}
use mini_os.Mm.PageTable.Tree.{dup_pgtable}
use mini_os.Mm.PageTable.Account.{add_use}
use mini_os.Mm.PageTable.Walk.{IsFull}
use mini_os.Mm.PageTable.Uses.{uses}
use mini_os.Mm.PageTable.Space.{IsSpace, uses-find_pte}
use mini_os.Mm.PageTable.Cow.{Out}
use mini_os.Mm.PageTable.Fault.{do_page_fault-FaultOutcome}
use mini_os.Mm.PageTable.Fork.{HasRoom}
use mini_os.Mm.PageTable.Share.{share, shared_pte}
use mini_os.Mm.PageTable.Isolation.{IsSpace-apart, ForkOutcome-some, dup_pgtable-ForkOutcome}

-- What a side that maps `other` sees of a fault on the side that maps `out.1` now: where `es` mapped
-- a page before the fork, it still reads the bytes from there, and what the first side may write, it
-- does not map.
pub record Undisturbed (f : Frames) (es other : Entries 2) (out : Out) : Type 0 where
  pub reads :
      (va : ℕ) (pte : Pte)
      → find_pte 2 es va ≡ some pte
      → (find_pte 2 other va ≡ some (shared_pte pte)) × (out.2.bytes pte.page ≡ f.bytes pte.page)
  pub apart :
      (va : ℕ) (pte : Pte)
      → find_pte 2 out.1 va ≡ some pte
      → pte_write pte ≡ true
      → (va' : ℕ) (pte' : Pte) → find_pte 2 other va' ≡ some pte'
      → pte'.page ≢ pte.page

shared_page : (pte : Pte) → (shared_pte pte).page ≡ pte.page
unfolding pte_wrprotect
shared_page pte = ground arith

fault-Undisturbed :
    (others : ℕ → ℕ) {f g : Frames} {es mine other : Entries 2}
    → IsSpace (λ q. others q + uses 2 other q) g mine
    → IsFull 2 other
    → g.bytes ≡ f.bytes
    → ((va : ℕ) → find_pte 2 other va ≡ share (find_pte 2 es va))
    → (areas : List VmAreaStruct) (addr : ℕ) (access : Access)
    → Undisturbed f es other (do_page_fault g mine areas addr access)
fault-Undisturbed others {f} {g} {es} {mine} {other} s full same walks areas addr access =
    let there = (do_page_fault-FaultOutcome s areas addr access).0 in
    record {
      reads = λ va pte e.
          let here = walks va ∙ ap share e in
          (
            here,
            there.content pte.page (
                  omega (
                    arith,
                    uses-find_pte 2 other va (shared_pte pte) full here,
                    ap (uses 2 other) (shared_page pte),
                  ))
                ∙ ap (λ b. b pte.page) same,
          );
      apart = λ va pte e w va' pte' e'.
          IsSpace-apart others (do_page_fault g mine areas addr access).2
            (do_page_fault g mine areas addr access).1 other full there.space va pte e w va' pte'
            e';
    }

-- Where the address space is in order, no page would reach 2^31 uses and a fork copies it, a page
-- fault on either of the two sides does not disturb the other: the other maps every address that
-- was mapped before the fork to the same page and finds the bytes there that were there before the
-- fork, and maps no page that the first side may write.
pub dup_pgtable-do_page_fault :
    {others : ℕ → ℕ} {f : Frames} {es : Entries 2}
    → IsSpace others f es
    → HasRoom others 2 es
    → (table : ℕ) (child : Entry 3) → (dup_pgtable f (table, es)).0 ≡ some child
    → (areas : List VmAreaStruct) (addr : ℕ) (access : Access)
    → let (made, parent, g) = dup_pgtable f (table, es) in
      Undisturbed f es parent.1 (do_page_fault g child.1 areas addr access)
      × Undisturbed f es child.1 (do_page_fault g parent.1 areas addr access)
dup_pgtable-do_page_fault {others} {f} {es} s room table child e areas addr access =
    let k =
      ForkOutcome-some (dup_pgtable f (table, es)) child (dup_pgtable-ForkOutcome s room table) e in
    (
      fault-Undisturbed (add_use others child.0) k.child k.parent.full k.bytes
          (λ va. (k.walks va).0) areas addr access,
      fault-Undisturbed (add_use others child.0) k.parent k.child.full k.bytes
          (λ va. (k.walks va).1) areas addr access,
    )
