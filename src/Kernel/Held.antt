-- ===== src/Kernel/Held.antt =====
-- What the calls of the kernel leave held: how often each page is pinned, how many entries of
-- scatterlists are mapped, how many bytes of coherent memory are allocated, and whether the engine
-- is running. A call out of turn is a `bug`: a page used or released that is not pinned, or one
-- released or its mapping ended while the engine can still access it.
use mathlib.Core.Path.{fun_ext}
use xpcie.Base.{
  ℕ, suc, ◌+◌, ◌-◌, ◌%◌, ◌≤◌, ◌≡◌, ap, ◌∙◌, refl, sym, >>=-assoc, Bool, true, false, ◌&&◌, not,
  List, [], ◌∷◌, ◌++◌, map, leb, ltb, ◌==◌, if◌then◌else◌, update, Bool-cases, inl, inr, Run, done,
  bug, ◌>>=◌, arith,
}
use xpcie.Kernel.{
  Register, Event, write32, get_page, put_page, dirty_page, flush_page, map_sg, unmap_sg,
  alloc_consistent, free_consistent,
}

pub record Held : Type 0 where
  pub pins : ℕ → ℕ
  pub entries : ℕ
  pub coherent : ℕ
  pub running : Bool

abbrev pub hold : Event → Held → Run Held
hold (get_page q) h = done (record h { pins = update h.pins q (suc (h.pins q)) })
hold (put_page q) h =
    if ltb 0 (h.pins q) && not h.running
    then done (record h { pins = update h.pins q (h.pins q - 1) })
    else bug
hold (dirty_page q) h = if ltb 0 (h.pins q) then done h else bug
hold (flush_page q) h = if ltb 0 (h.pins q) then done h else bug
hold (map_sg n) h = done (record h { entries = h.entries + n })
hold (unmap_sg n) h =
    if leb n h.entries && not h.running then done (record h { entries = h.entries - n }) else bug
hold (alloc_consistent size) h = done (record h { coherent = h.coherent + size })
hold (free_consistent size bus) h =
    if leb size h.coherent && not h.running
    then done (record h { coherent = h.coherent - size })
    else bug
hold (write32 Register.control w) h = done (record h { running = w % 2 == 1 })
hold event h = done h

unfoldable pub hold_all : List Event → Held → Run Held
hold_all [] h = done h
hold_all (e ∷ events) h = do next ← hold e h; hold_all events next

hold_all-append :
    (xs ys : List Event) (h : Held) → hold_all (xs ++ ys) h ≡ (hold_all xs h >>= hold_all ys)
unfolding hold_all
hold_all-append [] ys h = refl
hold_all-append (e ∷ xs) ys h =
    ap (λ f. hold e h >>= f) (fun_ext (hold_all-append xs ys))
    ∙ sym (>>=-assoc (hold e h) (hold_all xs) (hold_all ys))

-- Some calls, and calls after them.
pub hold_on :
    (xs ys : List Event) (h next : Held) {end : Run Held}
    → hold_all xs h ≡ done next
    → hold_all ys next ≡ end
    → hold_all (xs ++ ys) h ≡ end
hold_on xs ys h next first others =
    hold_all-append xs ys h ∙ ap (λ r. r >>= hold_all ys) first ∙ others

-- How often a page is in a list.
abbrev pub times : List ℕ → ℕ → ℕ
times [] j = 0
times (q ∷ pages) j = if q == j then suc (times pages j) else times pages j

-- Each page pinned once more for each time.
abbrev pub pinned_more : List ℕ → (ℕ → ℕ) → ℕ → ℕ
pinned_more pages pins j = pins j + times pages j

times_self : (q : ℕ) (pages : List ℕ) → times (q ∷ pages) q ≡ suc (times pages q)
times_self q pages = let same : (q == q) ≡ true = ground arith in rw same refl

times-le : (q : ℕ) (pages : List ℕ) (j : ℕ) → times pages j ≤ times (q ∷ pages) j
times-le q pages j = ground arith

-- One more or one less of the first page.
more-suc :
    (q : ℕ) (pages : List ℕ) (pins : ℕ → ℕ) (j : ℕ)
    → pinned_more pages (update pins q (suc (pins q))) j ≡ pinned_more (q ∷ pages) pins j
more-suc q pages pins j = elim (Bool-cases (q == j)) [
  | inl same ↦ let e : q ≡ j = ground arith in rw same (omega (arith, ap pins e))
  | inr other ↦ rw other refl
]

more-pred :
    (q : ℕ) (pages : List ℕ) (now pins : ℕ → ℕ)
    → ((j : ℕ) → now j ≡ pinned_more (q ∷ pages) pins j)
    → (j : ℕ) → update now q (now q - 1) j ≡ pinned_more pages pins j
more-pred q pages now pins same j = elim (Bool-cases (q == j)) [
  | inl at ↦
      let e : q ≡ j = ground arith in
      rw at (omega (arith, ap now e, same q, times_self q pages, ap (times pages) e, ap pins e))
  | inr other ↦ rw other (same j ∙ rw other refl)
]

pub hold_all-get :
    (pages : List ℕ) (h : Held)
    → hold_all (map get_page pages) h ≡ done (record h { pins = pinned_more pages h.pins })
unfolding hold_all
hold_all-get [] h = ap (λ f. done (record h { pins = f })) (fun_ext (λ j. omega arith))
hold_all-get (q ∷ pages) h =
    hold_all-get pages (record h { pins = update h.pins q (suc (h.pins q)) })
    ∙ ap (λ f. done (record h { pins = f })) (fun_ext (more-suc q pages h.pins))

pub hold_all-flush :
    (pages : List ℕ) (h : Held)
    → ((j : ℕ) → times pages j ≤ h.pins j)
    → hold_all (map flush_page pages) h ≡ done h
unfolding hold_all
hold_all-flush [] h enough = refl
hold_all-flush (q ∷ pages) h enough =
    let there : ltb 0 (h.pins q) ≡ true = ground (arith, enough q, times_self q pages) in
    rw there (hold_all-flush pages h (λ j. omega (arith, times-le q pages j, enough j)))

-- The pages released, once for each time, when the engine does not run.
pub hold_all-put :
    (pages : List ℕ) (h : Held) (pins : ℕ → ℕ)
    → h.running ≡ false
    → ((j : ℕ) → h.pins j ≡ pinned_more pages pins j)
    → hold_all (map put_page pages) h ≡ done (record h { pins = pins })
unfolding hold_all
hold_all-put [] h pins stopped same =
    ap (λ f. done (record h { pins = f })) (fun_ext (λ j. same j ∙ omega arith))
hold_all-put (q ∷ pages) h pins stopped same =
    let there : ltb 0 (h.pins q) ≡ true = ground (arith, same q, times_self q pages) in
    let allowed : (ltb 0 (h.pins q) && not h.running) ≡ true = rw (there, stopped) refl in
    let after = record h { pins = update h.pins q (h.pins q - 1) } in
    ap
      (λ (b : Bool). (if b then done after else bug) >>= λ next. hold_all (map put_page pages) next)
      allowed
    ∙ hold_all-put pages after pins stopped (more-pred q pages h.pins pins same)

-- The mapping ended, when the engine does not run.
pub hold_all-unmap :
    (n : ℕ) (h : Held) (entries : ℕ)
    → h.running ≡ false
    → h.entries ≡ entries + n
    → hold_all (unmap_sg n ∷ []) h ≡ done (record h { entries = entries })
unfolding hold_all
hold_all-unmap n h entries stopped mapped =
    let fits : leb n h.entries ≡ true = ground (arith, mapped) in
    let allowed : (leb n h.entries && not h.running) ≡ true = rw (fits, stopped) refl in
    let after = record h { entries = h.entries - n } in
    ap (λ (b : Bool). (if b then done after else bug) >>= hold_all []) allowed
    ∙ ap (λ m. done (record h { entries = m })) (omega (arith, mapped))
