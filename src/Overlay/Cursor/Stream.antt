-- ===== src/Overlay/Cursor/Stream.antt =====
-- What a backend's pages add up to, and what a cursor over them still has to show.
use native.Mathlib.Numerals.{add-one}
use overlay_s.Base.{
  Bool, Bool-cases, Bytes, List, Option, [], ap, append-nil, arith, drop, drop_end, drop_step,
  false, get_elem?, inl, inr, leb, length, none, not, refl, some, suc, sym, true, zero, ℕ, ◌++◌,
  ◌<◌, ◌∙◌, ◌∷◌, ◌≡◌, ◌≤◌,
}
use overlay_s.Base.Exec.{Error, Outcome, continue, err, no_return, is_not_found, ok, pure}
use overlay_s.Overlay.Cursor.{
  ListCursor, ListSource, enter_page, fetch, is_spent, load, load_error, next, peek,
}
use overlay_s.Overlay.Entries.{ListEntry, merge_page_entries}
use overlay_s.Store.{ListPage}

-- From token `after` the backend serves `es`, in at most `pages` pages, whatever the world is.
pub data Streams {W : Type 0} (s : ListSource W) : ℕ → Bytes → List ListEntry → Type 0 where
  missing :
      {n : ℕ} {after : Bytes} {es : List ListEntry} (e : Error)
      → s.tolerate_missing ≡ true
      → is_not_found e ≡ true
      → ((w : W) → (fetch s after w).0 ≡ err e)
      → es ≡ []
      → Streams s (suc n) after es
  final :
      {n : ℕ} {after : Bytes} {es : List ListEntry} (page : ListPage)
      → ((w : W) → (fetch s after w).0 ≡ ok page)
      → page.truncated ≡ false
      → es ≡ merge_page_entries page
      → Streams s (suc n) after es
  more :
      {n : ℕ} {after : Bytes} {es rest : List ListEntry} (page : ListPage)
      → ((w : W) → (fetch s after w).0 ≡ ok page)
      → page.truncated ≡ true
      → Streams s n page.next_token rest
      → es ≡ merge_page_entries page ++ rest
      → Streams s (suc n) after es

module _ {W : Type 0} (s : ListSource W) where
  -- What comes behind the entries that are loaded.
  abbrev pub Behind : Bool → ℕ → Bytes → List ListEntry → Type 0
  Behind true pages after rest = rest ≡ []
  Behind false pages after rest = Streams s pages after rest

  -- The cursor has the entries `es` before it, on fewer than `fuel` further pages.
  pub record Remains (fuel : ℕ) (c : ListCursor) (es : List ListEntry) : Type 0 where
    pub pages : ℕ
    pub rest : List ListEntry
    pub bound : pages < fuel
    pub loaded : es ≡ drop c.idx c.entries ++ rest
    pub behind : Behind c.done pages c.after rest

  drop_spent : (n : ℕ) (xs : List ListEntry) → leb (length xs) n ≡ true → drop n xs ≡ []
  drop_spent zero [] h = refl
  drop_spent zero (x ∷ xs) h = absurd (ground arith)
  drop_spent (suc n) [] h = refl
  drop_spent (suc n) (x ∷ xs) h = drop_spent n xs (ground arith)

  abbrev at : Bytes → List ListEntry → ℕ → Bool → ListCursor
  at a en i done = record { after = a; entries = en; idx = i; done = done }

  -- A load shows the same entries, and is spent only where there are none.
  abbrev Loaded : ℕ → List ListEntry → Outcome ListCursor → Type 0
  Loaded fuel es (ok c) = Remains fuel c es × (is_spent s c ≡ false)
  Loaded fuel es (err e) = ⊥
  Loaded fuel es no_return = ⊥

  unspent_Loaded :
      (fuel pages : ℕ) (c : ListCursor) (es rest : List ListEntry)
      → is_spent s c ≡ false
      → pages < fuel
      → es ≡ drop c.idx c.entries ++ rest
      → Behind c.done pages c.after rest
      → Loaded fuel es (ok c)
  unspent_Loaded fuel pages c es rest u h e b =
      (record { pages = pages; rest = rest; bound = h; loaded = e; behind = b }, u)

  module _ (f : ℕ) (c : ListCursor) (w : W) where
    load_unspent : is_spent s c ≡ false → (load s (suc f) c w).0 ≡ ok c
    unfolding load
    load_unspent h = ground arith

    load_page :
        (page : ListPage)
        → is_spent s c ≡ true
        → (fetch s c.after w).0 ≡ ok page
        → (load s (suc f) c w).0 ≡ (load s f (enter_page s c page) (fetch s c.after w).1).0
    unfolding load
    load_page page h e = ground arith

    load_missing :
        (e : Error)
        → is_spent s c ≡ true
        → s.tolerate_missing ≡ true
        → is_not_found e ≡ true
        → (fetch s c.after w).0 ≡ err e
        → (load s (suc f) c w).0 ≡ ok (record c { done = true })
    unfolding load load_error
    load_missing e h t n q = ground arith

  -- A spent cursor has behind it all that it has.
  es-eq-rest :
      (a : Bytes) (en : List ListEntry) (i : ℕ) (es rest : List ListEntry)
      → is_spent s (at a en i false) ≡ true
      → es ≡ drop i en ++ rest
      → es ≡ rest
  unfolding is_spent
  es-eq-rest a en i es rest spent e = rw (drop_spent i en (ground arith)) at e

  load_lem :
      (f fuel pages : ℕ) (a : Bytes) (en : List ListEntry) (i : ℕ) (done : Bool)
      (es rest : List ListEntry) (w : W)
      → pages < f
      → f ≤ fuel
      → es ≡ drop i en ++ rest
      → Behind done pages a rest
      → Loaded fuel es (load s f (at a en i done) w).0
  unfolding enter_page
  load_lem zero fuel pages a en i d es rest w h k e b = absurd (omega arith)
  load_lem (suc f) fuel pages a en i true es rest w h k e b =
      rw (load_unspent f (at a en i true) w (unfold is_spent in ground arith)) (
        unspent_Loaded fuel pages (at a en i true) es rest (unfold is_spent in ground arith)
          (omega arith) e b)
  load_lem (suc f) fuel zero a en i false es rest w h k e b = elim b [ ]
  load_lem (suc f) fuel (suc n) a en i false es rest w h k e (missing x t nf served z) =
      let c = at a en i false in
      elim (Bool-cases (is_spent s c)) [
        | inl spent ↦ rw (load_missing f c w x spent t nf (served w)) (
          record {
            pages = 0;
            rest = [];
            bound = omega arith;
            loaded = e ∙ ap (λ r. drop i en ++ r) z;
            behind = refl;
          },
          unfold is_spent in ground arith,
        )
        | inr unspent ↦ rw (load_unspent f c w unspent) (
            unspent_Loaded fuel (suc n) c es rest unspent (omega arith) e (missing x t nf served z))
      ]
  load_lem (suc f) fuel (suc n) a en i false es rest w h k e (final page served t z) =
      let c = at a en i false in
      elim (Bool-cases (is_spent s c)) [
        | inl spent ↦ rw (load_page f c w page spent (served w)) (
            load_lem f fuel n page.next_token (merge_page_entries page) 0 (not page.truncated) es []
              (fetch s a w).1 (omega arith) (omega arith)
              (es-eq-rest a en i es rest spent e ∙ z ∙ sym (append-nil _)) (rw t refl))
        | inr unspent ↦
            rw (load_unspent f c w unspent) (
              unspent_Loaded fuel (suc n) c es rest unspent (omega arith) e (final page served t z))
      ]
  load_lem (suc f) fuel (suc n) a en i false es rest w h k e
        (more {rest = tail} page served t later z) =
      let c = at a en i false in
      elim (Bool-cases (is_spent s c)) [
        | inl spent ↦ rw (load_page f c w page spent (served w)) (
            load_lem f fuel n page.next_token (merge_page_entries page) 0 (not page.truncated) es
              tail (fetch s a w).1 (omega arith) (omega arith)
              (es-eq-rest a en i es rest spent e ∙ z) (rw t later))
        | inr unspent ↦ rw (load_unspent f c w unspent) (
            unspent_Loaded fuel (suc n) c es rest unspent (omega arith) e
              (more page served t later z))
      ]

  -- What `peek` shows: the first of the entries, or none where there are none.
  abbrev pub Peeked : ℕ → List ListEntry → Outcome (ListCursor × Option ListEntry) → Type 0
  Peeked fuel es (ok (c, some x)) =
      (later : List ListEntry) × (es ≡ x ∷ later) × Remains fuel c es × Remains fuel (next c) later
  Peeked fuel es (ok (c, none)) = (es ≡ []) × Remains fuel c es
  Peeked fuel es (err e) = ⊥
  Peeked fuel es no_return = ⊥

  spent_of_none : (en : List ListEntry) (i : ℕ) → get_elem? en i ≡ none → leb (length en) i ≡ true
  spent_of_none [] i h = ground arith
  spent_of_none (x ∷ en) zero h = absurd (ground arith)
  spent_of_none (x ∷ en) (suc i) h = ground (arith, spent_of_none en i h)

  -- An unspent cursor that shows nothing is done.
  nothing_left :
      (a : Bytes) (en : List ListEntry) (i pages : ℕ) (done : Bool) (rest : List ListEntry)
      → is_spent s (at a en i done) ≡ false
      → get_elem? en i ≡ none
      → Behind done pages a rest
      → rest ≡ []
  unfolding is_spent
  nothing_left a en i pages true rest u h b = b
  nothing_left a en i pages false rest u h b = absurd (ground (arith, spent_of_none en i h))

  module _ (fuel : ℕ) (es : List ListEntry) (c : ListCursor) (r : Remains fuel c es) where
    peek_some :
        (x : ListEntry)
        → get_elem? c.entries c.idx ≡ some x
        → (later : List ListEntry) × (es ≡ x ∷ later)
          × Remains fuel c es
          × Remains fuel (next c) later
    unfolding next
    peek_some x h =
        let later = drop (suc c.idx) c.entries ++ r.rest in
        (
          later,
          r.loaded ∙ ap (λ l. l ++ r.rest) (drop_step c.idx c.entries x h),
          r,
          record {
            pages = r.pages;
            rest = r.rest;
            bound = r.bound;
            loaded = rw add-one;
            behind = r.behind;
          },
        )

    peek_none :
        is_spent s c ≡ false → get_elem? c.entries c.idx ≡ none → (es ≡ []) × Remains fuel c es
    peek_none u h =
        let empty = nothing_left c.after c.entries c.idx r.pages c.done r.rest u h r.behind in
        (r.loaded ∙ rw (drop_end c.idx c.entries h) empty, r)

    peek_elem :
        (o : Option ListEntry)
        → is_spent s c ≡ false
        → get_elem? c.entries c.idx ≡ o
        → Peeked fuel es (ok (c, o))
    peek_elem none u h = peek_none u h
    peek_elem (some x) u h = peek_some x h

  peek-Loaded :
      (fuel : ℕ) (es : List ListEntry) (o : Outcome ListCursor) (w : W)
      → Loaded fuel es o
      → Peeked fuel es (continue o (λ c. pure (c, get_elem? c.entries c.idx)) w).0
  peek-Loaded fuel es (ok c) w (r, u) = peek_elem fuel es c r (get_elem? c.entries c.idx) u refl
  peek-Loaded fuel es (err e) w h = h
  peek-Loaded fuel es no_return w h = h

  pub peek_lem :
      (fuel : ℕ) (c : ListCursor) (es : List ListEntry) (w : W)
      → Remains fuel c es
      → Peeked fuel es (peek s fuel c w).0
  unfolding peek
  peek_lem fuel c es w r = peek-Loaded fuel es (load s fuel c w).0 (load s fuel c w).1 (
      load_lem fuel fuel r.pages c.after c.entries c.idx c.done es r.rest w r.bound (omega arith)
        r.loaded r.behind)
