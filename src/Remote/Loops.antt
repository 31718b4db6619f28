-- ===== src/Remote/Loops.antt =====
-- remote.go: the paging loops of s3Store come to an end where the backend's pages run out.
use mathlib.Core.Path.{subst}
use overlay_s.Base.{
  Bool, Bytes, List, Option, [], ap, arith, cut, false, none, refl, some, suc, sym, true, zero, ℕ,
  ◌++◌, ◌<◌, ◌∙◌, ◌∷◌, ◌≡◌, ◌≢◌,
}
use overlay_s.Base.Exec.{Exec, Outcome, continue, err, handle, no_return, ok, pure, raise, ◌>>=◌}
use overlay_s.Base.Exec.Rules.{Ending-Follows, Ends, mapped-Follows, pure-Follows, raise-Follows}
use overlay_s.Overlay.Gateway.Ending.{PagesEnd, pages_end}
use overlay_s.Remote.Calls.{map_s3_error}
use overlay_s.Remote.Client.{
  Client, ListObjectsInput, ListObjectsOutput, ListPartsOutput, ListUploadsOutput, to_bool,
}
use overlay_s.Remote.KeyMap.{Mapping, backend_prefix, list_prefix, map_key}
use overlay_s.Remote.Listings.{
  next_parts, next_root_page, next_uploads, parts_from, root_buckets, root_request, s3_list_page,
  uploads_from,
}
use overlay_s.Remote.Mapped.{s3_store}
use overlay_s.Remote.Outputs.{
  add_names, listed_parts, listed_uploads, page_limit, page_of, unless_empty,
}
use overlay_s.Store.{ListPage, ListParams, MultipartInfo, PartInfo}

-- A page that is cut short has a token for the rest, which is never empty, and the pages behind it run
-- out within the number given.
pub data ObjectPages {W : Type 0} (client : Client W) : ℕ → ListObjectsInput → Type 0 where
  object_pages :
      {n : ℕ} {i : ListObjectsInput}
      → ((w : W) → (client.list_objects_v2 i w).0 ≢ no_return)
      → ((w : W) (resp : ListObjectsOutput)
          → (client.list_objects_v2 i w).0 ≡ ok resp
          → to_bool resp.is_truncated ≡ true
          → (c : ℕ) × (token : Bytes) × (resp.next_continuation_token ≡ some (c ∷ token)))
      → ((w : W) (resp : ListObjectsOutput) (token : Bytes)
          → (client.list_objects_v2 i w).0 ≡ ok resp
          → to_bool resp.is_truncated ≡ true
          → resp.next_continuation_token ≡ some token
          → ObjectPages client n (record i { continuation_token = some token }))
      → ObjectPages client (suc n) i

-- The same for the parts of an upload
pub data PartsRunOut {W : Type 0} (client : Client W) (b k id : Bytes)
    : ℕ → Option Bytes → Type 0 where
  parts_run_out :
      {n : ℕ} {m : Option Bytes}
      → ((w : W) → (client.list_parts b k id m w).0 ≢ no_return)
      → ((w : W) (resp : ListPartsOutput)
          → (client.list_parts b k id m w).0 ≡ ok resp
          → to_bool resp.is_truncated ≡ true
          → PartsRunOut client b k id n resp.next_part_number_marker)
      → PartsRunOut client b k id (suc n) m

-- The same for the uploads of a bucket
pub data UploadsRunOut {W : Type 0} (client : Client W) (b prefix : Bytes)
    : ℕ → Option Bytes → Option Bytes → Type 0 where
  uploads_run_out :
      {n : ℕ} {k m : Option Bytes}
      → ((w : W) → (client.list_multipart_uploads b prefix k m w).0 ≢ no_return)
      → ((w : W) (resp : ListUploadsOutput)
          → (client.list_multipart_uploads b prefix k m w).0 ≡ ok resp
          → to_bool resp.is_truncated ≡ true
          → UploadsRunOut client b prefix n resp.next_key_marker resp.next_upload_id_marker)
      → UploadsRunOut client b prefix (suc n) k m

-- A call behind which what follows comes to an end for the results that it can have
module _ {W A B : Type 0} where
  continue-Ends :
      (o : Outcome A) (f : A → Exec W B) (w : W)
      → o ≢ no_return
      → ((a : A) → o ≡ ok a → Ends (f a))
      → (continue o f w).0 ≢ no_return
  continue-Ends (ok a) f w h k = (k a refl).ends w
  continue-Ends (err e) f w h k = λ e. ground arith
  continue-Ends no_return f w h k = absurd (h refl)

  bind-Ends :
      (m : Exec W A) (f : A → Exec W B)
      → ((w : W) → (m w).0 ≢ no_return)
      → ((w : W) (a : A) → (m w).0 ≡ ok a → Ends (f a))
      → Ends (m >>= f)
  bind-Ends m f h k = record { ends = λ w. continue-Ends (m w).0 f (m w).1 (h w) (k w) }

module _ {W : Type 0} (now : W → ℕ) (client : Client W) (s : Mapping) where
  pub answers :
      (n : ℕ) (i : ListObjectsInput) → ObjectPages client n i → Ends (client.list_objects_v2 i)
  answers _ i (object_pages there named behind) = record { ends = there }

  next_root_page-Ends :
      (again : Option Bytes → List Bytes → Exec W (List Bytes)) (b : Bool) (token : Option Bytes)
      (names : List Bytes)
      → (b ≡ true → (t : Bytes) → token ≡ some t → Ends (again (some t) names))
      → Ends (next_root_page now client s again b token names)
  next_root_page-Ends again false token names k = pure-Follows Ending-Follows names
  next_root_page-Ends again true (some t) names k = k refl t refl
  next_root_page-Ends again true none names k = raise-Follows Ending-Follows _

  pub root_buckets-Ends :
      (f n : ℕ) (token : Option Bytes) (names : List Bytes)
      → n < f
      → ObjectPages client n (root_request now client s token)
      → Ends (root_buckets now client s f token names)
  unfolding root_buckets
  root_buckets-Ends zero n token names h p = absurd (omega arith)
  root_buckets-Ends (suc f) _ token names h (object_pages {n = n} there marked behind) =
      bind-Ends _ _ there (λ w resp e.
        next_root_page-Ends (root_buckets now client s f) (to_bool resp.is_truncated)
          resp.next_continuation_token (add_names s names resp.common_prefixes)
          (λ cut t named.
            root_buckets-Ends f n (some t) _ (omega (arith, h)) (behind w resp t e cut named)))

  next_parts-Ends :
      (again : Option Bytes → List PartInfo → Exec W (List PartInfo)) (b : Bool)
      (marker : Option Bytes) (parts : List PartInfo)
      → (b ≡ true → (m : Bytes) → marker ≡ some m → Ends (again (some m) parts))
      → Ends (next_parts now client s again b marker parts)
  next_parts-Ends again false marker parts k = pure-Follows Ending-Follows parts
  next_parts-Ends again true (some m) parts k = k refl m refl
  next_parts-Ends again true none parts k = raise-Follows Ending-Follows _

  pub parts_from-Ends :
      (f n : ℕ) (at : Bytes × Bytes) (id : Bytes) (marker : Option Bytes) (parts : List PartInfo)
      → n < f
      → PartsRunOut client at.0 at.1 id n marker
      → Ends (parts_from now client s f at id marker parts)
  unfolding parts_from
  parts_from-Ends zero n at id marker parts h p = absurd (omega arith)
  parts_from-Ends (suc f) _ at id marker parts h (parts_run_out {n = n} there behind) =
      bind-Ends _ _ there (λ w resp e.
        next_parts-Ends (parts_from now client s f at id) (to_bool resp.is_truncated)
          resp.next_part_number_marker (parts ++ listed_parts resp.parts)
          (λ cut m named.
            parts_from-Ends f n at id (some m) _ (omega (arith, h))
              (subst (λ m. PartsRunOut client at.0 at.1 id n m) named (behind w resp e cut))))

  next_uploads-Ends :
      (again : Option Bytes → Option Bytes → List MultipartInfo → Exec W (List MultipartInfo))
      (b : Bool) (key_marker id_marker : Option Bytes) (uploads : List MultipartInfo)
      → (b ≡ true → (k : Bytes) → key_marker ≡ some k → Ends (again (some k) id_marker uploads))
      → Ends (next_uploads now client s again b key_marker id_marker uploads)
  next_uploads-Ends again false key_marker id_marker uploads k = pure-Follows Ending-Follows uploads
  next_uploads-Ends again true (some m) id_marker uploads k = k refl m refl
  next_uploads-Ends again true none id_marker uploads k = raise-Follows Ending-Follows _

  pub uploads_from-Ends :
      (f n : ℕ) (b : Bytes) (key_marker id_marker : Option Bytes) (uploads : List MultipartInfo)
      → n < f
      → UploadsRunOut client (map_key s b []).0 (list_prefix s b) n key_marker id_marker
      → Ends (uploads_from now client s f b key_marker id_marker uploads)
  unfolding uploads_from
  uploads_from-Ends zero n b key_marker id_marker uploads h p = absurd (omega arith)
  uploads_from-Ends (suc f) _ b key_marker id_marker uploads h
        (uploads_run_out {n = n} there behind) =
      bind-Ends _ _ there (λ w resp e.
        next_uploads-Ends (uploads_from now client s f b) (to_bool resp.is_truncated)
          resp.next_key_marker resp.next_upload_id_marker
          (uploads ++ listed_uploads s b resp.uploads)
          (λ cut m named. uploads_from-Ends f n b (some m) _ _ (omega (arith, h)) (
            subst
              (λ m.
                UploadsRunOut client (map_key s b []).0 (list_prefix s b) n m
                  resp.next_upload_id_marker)
              named (behind w resp e cut))))

  -- The page is cut where the backend's is, with its token.
  page_of-cut :
      (b : Bytes) (resp : ListObjectsOutput)
      → (page_of s b resp).truncated ≡ to_bool resp.is_truncated
  unfolding page_of
  page_of-cut b resp = refl

  page_of-token :
      (b : Bytes) (resp : ListObjectsOutput) (c : ℕ) (token : Bytes)
      → to_bool resp.is_truncated ≡ true
      → resp.next_continuation_token ≡ some (c ∷ token)
      → (page_of s b resp).next_token ≡ c ∷ token
  unfolding page_of
  page_of-token b resp c token cut named = rw (cut, named) refl

  -- The request for the page behind a token
  abbrev pub page_request : Bytes → ListParams → ListObjectsInput
  page_request b p = record {
    bucket = (map_key s b []).0;
    prefix = backend_prefix s b p.prefix;
    delimiter = unless_empty p.delimiter;
    continuation_token = unless_empty p.after;
    max_keys = some (page_limit p.max_keys);
  }

  page_answer :
      (b : Bytes) (o : Outcome ListObjectsOutput) (w : W) (page : ListPage)
      → (handle o (λ resp. pure (page_of s b resp)) (λ e. raise (map_s3_error e)) w).0 ≡ ok page
      → (resp : ListObjectsOutput) × (o ≡ ok resp) × (page ≡ page_of s b resp)
  page_answer b (ok resp) w page e = (resp, refl, ok_injective (sym e))
    where
      ok_injective : {x y : ListPage} → ok x ≡ ok y → x ≡ y
      ok_injective h = cc
  page_answer b (err e') w page e = absurd (ground arith)
  page_answer b no_return w page e = absurd (ground arith)

  module _ (f : ℕ) where
    pub pages_end_lem :
        (n : ℕ) (b : Bytes) (p : ListParams)
        → ObjectPages client n (page_request b p)
        → PagesEnd (s3_store now client s f) b n p
    unfolding s3_store s3_list_page
    pages_end_lem zero b p pages = elim pages [ ]
    pages_end_lem (suc n) b p (object_pages there marked behind) =
        pages_end
          ((mapped-Follows Ending-Follows (client.list_objects_v2 (page_request b p))
            (λ resp. pure (page_of s b resp)) map_s3_error (record { ends = there })
            (λ resp. pure-Follows Ending-Follows _)).ends)
          (λ w page e cut.
            let (resp, came, is) = page_answer b _ _ page e in
            let cut' = sym (page_of-cut b resp) ∙ ap (λ p. p.truncated) (sym is) ∙ cut in
            let (c, token, named) = marked w resp came cut' in
            pages_end_lem n b _ (
              subst (λ t. ObjectPages client n (page_request b (record p { after = t })))
                (sym (ap (λ p. p.next_token) is ∙ page_of-token b resp c token cut' named))
                (behind w resp (c ∷ token) came cut' named)))
