-- ===== src/Overlay/Gateway/Ending.antt =====
-- Every call of the gateway comes to an end where the calls of both stores do.
use overlay_s.Base.{
  Bool-cases, Bytes, arith, false, inl, inr, refl, suc, true, zero, ℕ, ◌&&◌, ◌<◌, ◌≡◌, ◌≢◌,
}
use overlay_s.Base.Exec.{Error, Exec, Outcome, err, handle, no_return, is_not_found, ok}
use overlay_s.Base.Exec.Rules.{
  Ending, Ending-Follows, Ends, if-Follows, pure-Follows, raise-Follows,
}
use overlay_s.Overlay.Cursor.{
  ListCursor, ListSource, enter_page, fetch, is_spent, load, load_error, next,
}
use overlay_s.Overlay.Gateway.{overlay_store}
use overlay_s.Overlay.Gateway.Calls.{
  Lifts, ReadCalls, WriteCalls, overlay_store-ReadCalls, overlay_store-WriteCalls,
}
use overlay_s.Overlay.Listing.{OverlayStore, baseline_source, overlay_source}
use overlay_s.Store.{ListPage, ListParams, Store}

-- The listing of a bucket that starts with these parameters comes to an end within a number of pages,
-- whatever the world is when each of them is asked for.
pub data PagesEnd {W : Type 0} (s : Store W) (b : Bytes) : ℕ → ListParams → Type 0 where
  pages_end :
      {n : ℕ} {p : ListParams}
      → ((w : W) → (s.list_page b p w).0 ≢ no_return)
      → ((w : W) (page : ListPage)
          → (s.list_page b p w).0 ≡ ok page
          → page.truncated ≡ true
          → PagesEnd s b n (record p { after = page.next_token }))
      → PagesEnd s b (suc n) p

-- What a page that was fetched must be for a load to come to an end
abbrev Fetched : {W : Type 0} → (ListPage → Exec W ListCursor) → Outcome ListPage → Type 0
Fetched next (ok page) = Ends (next page)
Fetched next (err e) = Unit
Fetched next no_return = ⊥

handled :
    {W : Type 0} (next : ListPage → Exec W ListCursor) (failed : Error → Exec W ListCursor)
    → ((e : Error) → Ends (failed e))
    → (o : Outcome ListPage) (w : W) → Fetched next o
    → (handle o next failed w).0 ≢ no_return
handled next failed h (ok page) w f = f.ends w
handled next failed h (err e) w f = (h e).ends w
handled next failed h no_return w f = absurd f

module _ {W : Type 0} (s : ListSource W) where
  -- The parameters of the page behind a token
  abbrev page_params : Bytes → ListParams
  page_params after = record {
    prefix = s.prefix;
    delimiter = s.delimiter;
    after = after;
    max_keys = s.max_keys;
  }

  -- What is behind a page
  Onwards : ListCursor → ℕ → Type 0
  Onwards c n = c.done ≡ false → PagesEnd s.store s.bucket n (page_params c.after)

  load_error-Ends : (c : ListCursor) (e : Error) → Ends (load_error s c e)
  unfolding load_error
  load_error-Ends c e =
      if-Follows Ending-Follows (is_not_found e && s.tolerate_missing) _ _
        (pure-Follows Ending-Follows _) (raise-Follows Ending-Follows e)

  load_spent :
      (f : ℕ) (c : ListCursor) (w : W)
      → is_spent s c ≡ true
      → (load s (suc f) c w).0
        ≡ (handle
            (fetch s c.after w).0
            (λ page. load s f (enter_page s c page))
            (load_error s c)
            (fetch s c.after w).1).0
  unfolding load
  load_spent f c w h = rw (h, load) refl

  load_unspent :
      (f : ℕ) (c : ListCursor) (w : W) → is_spent s c ≡ false → (load s (suc f) c w).0 ≡ ok c
  unfolding load
  load_unspent f c w h = ground arith

  spent_open : (c : ListCursor) → is_spent s c ≡ true → c.done ≡ false
  unfolding is_spent
  spent_open c h = ground arith

  module _ (f : ℕ)
      (again : (n : ℕ) (c : ListCursor) → n < f → Onwards c n → Ends (load s f c)) where
    page_Fetched :
        (n : ℕ) (c : ListCursor) (o : Outcome ListPage)
        → n < f
        → o ≢ no_return
        → ((page : ListPage)
            → o ≡ ok page
            → page.truncated ≡ true
            → PagesEnd s.store s.bucket n (page_params page.next_token))
        → Fetched (λ page. load s f (enter_page s c page)) o
    unfolding enter_page Onwards
    page_Fetched n c (ok page) h there behind =
        again n (enter_page s c page) h (λ d. behind page refl (ground arith))
    page_Fetched n c (err e) h there behind = tt
    page_Fetched n c no_return h there behind = there refl

    spent_ends :
        (n : ℕ) (c : ListCursor) (w : W)
        → n < suc f
        → PagesEnd s.store s.bucket n (page_params c.after)
        → (handle
            (fetch s c.after w).0
            (λ page. load s f (enter_page s c page))
            (load_error s c)
            (fetch s c.after w).1).0
          ≢ no_return
    unfolding fetch
    spent_ends _ c w h (pages_end {n = n} there behind) =
        handled _ _ (load_error-Ends c) _ _
          (page_Fetched n c _ (omega (arith, h)) (there w) (behind w))

  -- A load with more fuel than there are pages comes to an end.
  load-Ends : (f n : ℕ) (c : ListCursor) → n < f → Onwards c n → Ends (load s f c)
  unfolding Onwards
  load-Ends zero n c h k = absurd (omega arith)
  load-Ends (suc f) n c h k = record {
    ends = λ w. elim (Bool-cases (is_spent s c)) [
      | inl spent ↦
          rw (load_spent f c w spent) (spent_ends f (load-Ends f) n c w h (k (spent_open c spent)))
      | inr unspent ↦ rw (load_unspent f c w unspent) (λ e. ground arith)
    ];
  }

module _ {W : Type 0} where
  Ending-Lifts : Lifts (Ending {W = W}) Ending
  Ending-Lifts = record {
    below = Ending-Follows;
    above = Ending-Follows;
    lift = λ A m k. record { ends = λ g. k.ends g.world };
    sessions = λ A f h. record { ends = λ g e. ground arith };
  }

  -- Every call of the store comes to an end, listings within this number of pages.
  pub record StoreEnds (pages : ℕ) (s : Store W) : Type 0 where
    pub reads : ReadCalls Ending s
    pub writes : WriteCalls Ending s
    pub listings : (b : Bytes) (p : ListParams) → PagesEnd s b pages p

  module _ (now : W → ℕ) (fuel : ℕ) (o : OverlayStore W) (pages : ℕ) (enough : pages < fuel)
      (overlay_ends : StoreEnds pages o.overlay) (baseline_ends : StoreEnds pages o.baseline) where
    pub overlay_store-ReadsEnd : ReadCalls Ending (overlay_store now fuel o)
    unfolding Onwards
    overlay_store-ReadsEnd =
        overlay_store-ReadCalls Ending-Lifts now fuel o
          (λ b p c.
            load-Ends (overlay_source now fuel o b p) fuel pages c enough
              (λ d. overlay_ends.listings b _))
          (λ b p c.
            load-Ends (baseline_source now fuel o b p) fuel pages c enough
              (λ d. baseline_ends.listings b _))
          overlay_ends.reads baseline_ends.reads

    pub overlay_store-WritesEnd : WriteCalls Ending (overlay_store now fuel o)
    overlay_store-WritesEnd = overlay_store-WriteCalls Ending-Lifts now fuel o overlay_ends.writes
