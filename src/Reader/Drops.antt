-- ===== src/Reader/Drops.antt =====
-- What the wait for an answer makes of the frames behind the answer.
use rfid.Prelude.{ℕ, ◌≡◌, refl, Bool, List, [], ◌∷◌, ◌++◌, nat_eq, arith}
use rfid.Result.{ok}
use rfid.Protocol.{RfidFrame}
use rfid.Reader.Io.{Io}
use rfid.Reader.Inventory.{Executor, answer, scan, scanned, wait_scanned}

module _ (address command : ℕ) (accepted : ℕ → Bool) (more : List RfidFrame) (f : RfidFrame) where
  scan-append :
      (frames pending p : List RfidFrame)
      → scan address command accepted frames pending ≡ answer f p
      → scan address command accepted (frames ++ more) pending ≡ answer f p
  unfolding scan
  scan-append [] pending p h = cc
  scan-append (frame ∷ frames) pending p h =
      ground (arith, scan-append frames pending p, scan-append frames (pending ++ frame ∷ []) p)

  -- If the answer to a START or STOP is among the frames of a receive, then the wait ends with it
  -- and with the tag frames before it, whatever frames the same receive has returned behind it: tag
  -- frames there are lost.
  pub scanned-append :
      (again : Io Executor RfidFrame) (e : Executor) (frames p : List RfidFrame)
      → scan address command accepted frames e.pending_tag_frames ≡ answer f p
      → scanned address command accepted again (frames ++ more) e
        ≡ (ok f, record e { pending_tag_frames = p })
  unfolding wait_scanned
  scanned-append again e frames p h =
      rw (scan-append frames e.pending_tag_frames p h, wait_scanned) refl
