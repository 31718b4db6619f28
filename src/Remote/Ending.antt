-- ===== src/Remote/Ending.antt =====
-- remote.go: every call of s3Store comes to an end where the backend answers and its pages run out.
use overlay_s.Base.{Bytes, Option, [], none, ℕ, ◌<◌}
use overlay_s.Base.Exec.Rules.{Ending, Ending-Follows}
use overlay_s.Overlay.Gateway.Ending.{StoreEnds}
use overlay_s.Remote.Backend.{ClientReads, ClientWrites, s3_store-ReadCalls, s3_store-WriteCalls}
use overlay_s.Remote.Client.{Client, ListObjectsInput}
use overlay_s.Remote.KeyMap.{Mapping}
use overlay_s.Remote.Loops.{
  ObjectPages, PartsRunOut, UploadsRunOut, pages_end_lem, parts_from-Ends, root_buckets-Ends,
  uploads_from-Ends,
}
use overlay_s.Remote.Mapped.{s3_store}

-- A backend that answers every call, with a result or an error, and whose listings have at most this
-- many pages.
pub record ClientEnds {W : Type 0} (pages : ℕ) (client : Client W) : Type 0 where
  pub answered : ClientReads Ending client
  pub written : ClientWrites Ending client
  pub list_objects : (i : ListObjectsInput) → ObjectPages client pages i
  pub list_parts : (b k id : Bytes) (m : Option Bytes) → PartsRunOut client b k id pages m
  pub list_uploads :
      (b prefix : Bytes) (k m : Option Bytes) → UploadsRunOut client b prefix pages k m

module _ {W : Type 0} (now : W → ℕ) (client : Client W) (s : Mapping) (fuel pages : ℕ)
    (enough : pages < fuel) (client_ends : ClientEnds pages client) where
  -- Every call of the store comes to an end, with a result or an error, where the backend answers
  -- every call and each of its listings has fewer pages than one call has fuel for.
  pub s3_store-StoreEnds : StoreEnds pages (s3_store now client s fuel)
  s3_store-StoreEnds = record {
    reads =
        s3_store-ReadCalls Ending-Follows now client s fuel client_ends.answered
          (root_buckets-Ends now client s fuel pages none [] enough (client_ends.list_objects _));
    writes =
        s3_store-WriteCalls Ending-Follows now client s fuel client_ends.written
          (λ at id.
            parts_from-Ends now client s fuel pages at id none [] enough
              (client_ends.list_parts _ _ id none))
          (λ b.
            uploads_from-Ends now client s fuel pages b none none [] enough
              (client_ends.list_uploads _ _ none none));
    listings = λ b p. pages_end_lem now client s fuel pages b p (client_ends.list_objects _);
  }
