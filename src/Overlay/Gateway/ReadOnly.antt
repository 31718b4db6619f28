-- ===== src/Overlay/Gateway/ReadOnly.antt =====
-- The gateway makes no call of the baseline but reads.
use overlay_s.Base.{Bool-cases, Bytes, inl, inr, suc, zero, ℕ, ◌&&◌}
use overlay_s.Base.Exec.{Error, is_not_found, try_call}
use overlay_s.Base.Exec.Rules.{
  Keeping, Keeping-Follows, Keeps, if-Follows, pure-Follows, raise-Follows, try-Follows,
}
use overlay_s.Overlay.Cursor.{ListCursor, ListSource, enter_page, fetch, is_spent, load, load_error}
use overlay_s.Overlay.Gateway.{overlay_store}
use overlay_s.Overlay.Gateway.Calls.{
  Lifts, ReadCalls, WriteCalls, overlay_store-ReadCalls, overlay_store-WriteCalls,
}
use overlay_s.Overlay.Listing.{Gateway, OverlayStore, baseline_source, overlay_source}
use overlay_s.Store.{ListParams, Store}

-- The calls that read objects, listings and buckets keep `P`.
abbrev pub ReadsKeep : {W : Type 0} → Store W → (W → Type 0) → Type 0
ReadsKeep s P = ReadCalls (Keeping P) s

-- Every other call keeps `P`.
abbrev pub WritesKeep : {W : Type 0} → Store W → (W → Type 0) → Type 0
WritesKeep s P = WriteCalls (Keeping P) s

module _ {W : Type 0} (P : W → Type 0) where
  abbrev pub OnGateway : Gateway W → Type 0
  OnGateway g = P g.world

  Keeping-Lifts : Lifts (Keeping P) (Keeping OnGateway)
  Keeping-Lifts = record {
    below = Keeping-Follows P;
    above = Keeping-Follows OnGateway;
    lift = λ A m k. record { at = λ g h. k.at g.world h };
    sessions = λ A f h. record { at = λ g h. h };
  }

  module _ (s : ListSource W)
      (fetches : (b : Bytes) (p : ListParams) → Keeps P (s.store.list_page b p)) where
    fetch-Keeps : (after : Bytes) → Keeps P (fetch s after)
    unfolding fetch
    fetch-Keeps after = fetches s.bucket _

    load_error-Keeps : (c : ListCursor) (e : Error) → Keeps P (load_error s c e)
    unfolding load_error
    load_error-Keeps c e =
        if-Follows (Keeping-Follows P) (is_not_found e && s.tolerate_missing) _ _
          (pure-Follows (Keeping-Follows P) _) (raise-Follows (Keeping-Follows P) e)

    load-Keeps : (fuel : ℕ) (c : ListCursor) → Keeps P (load s fuel c)
    unfolding load
    load-Keeps zero c = record { at = λ w h. h }
    load-Keeps (suc fuel) c =
        let page_by_page : Keeps P (
            try_call (fetch s c.after) (λ page. load s fuel (enter_page s c page))
              (load_error s c)) =
          try-Follows (Keeping-Follows P) _ _ _ (fetch-Keeps c.after)
            (λ page. load-Keeps fuel (enter_page s c page)) (load_error-Keeps c) in
        record {
          at = λ w h. elim (Bool-cases (is_spent s c)) [
            | inl spent ↦ rw (spent, load) (page_by_page.at w h)
            | inr unspent ↦ rw (unspent, load) h
          ];
        }

  module _ (now : W → ℕ) (fuel : ℕ) (o : OverlayStore W) where
    -- Reads through the gateway change the stores only as reads of the two stores do.
    pub overlay_store-ReadsKeep :
        ReadsKeep o.overlay P
        → ReadsKeep o.baseline P
        → ReadsKeep (overlay_store now fuel o) OnGateway
    overlay_store-ReadsKeep ov bs =
        overlay_store-ReadCalls Keeping-Lifts now fuel o
          (λ b p c. load-Keeps (overlay_source now fuel o b p) ov.list_page fuel c)
          (λ b p c. load-Keeps (baseline_source now fuel o b p) bs.list_page fuel c) ov bs

    -- Writes through the gateway change the stores only as writes of the overlay do.
    pub overlay_store-WritesKeep :
        WritesKeep o.overlay P → WritesKeep (overlay_store now fuel o) OnGateway
    overlay_store-WritesKeep k = overlay_store-WriteCalls Keeping-Lifts now fuel o k
