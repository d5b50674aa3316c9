-- ===== src/Helper/Loop/Halfway.antt =====
-- The send loop beside the applier's two steps for files.
use beaglewing.Clipframe.Defs.{kind_tar}
use beaglewing.Clipframe.Frame.{Offer}
use beaglewing.Clipframe.Reassembler.{offer, Reassembler, feed}
use beaglewing.Common.Bytes.{Bytes}
use beaglewing.Helper.Apply.{Applying, hdrop, drop_effect, put_files}
use beaglewing.Helper.Content.{join}
use beaglewing.Helper.Defs.{Helper, apply_next, halfway}
use beaglewing.Helper.Loop.{Round, number, send_round}
use beaglewing.Helper.Loop.Echo.{Quiet, send_round-echo_files}
use beaglewing.Helper.Loop.Offers.{IsPath, after_offer, send_round-offer}
use beaglewing.Common.{All, ℕ, ◌^◌, ◌<◌, bit_xor, ◌≡◌, ◌≢◌, Bool, true, none, some, List, ◌∷◌}

module _ (takes : List Bytes → Bytes → Bool) (lossy : Bytes → Bytes) (w : Round) where
  -- A round of the loop writes one frame, which a receiver takes for an offer of files, and keeps
  -- these paths with its id; if the write fails, the device is dropped and no offer is kept.
  pub record IsOffered (r : Reassembler) (paths : List Bytes) (hash : ℕ) (t : Helper) : Type 0 where
    pub frame : Bytes
    pub what : Offer
    pub seen : feed r frame ≡ (r, offer what)
    pub files : what.kind ≡ kind_tar
    pub writes :
        send_round takes lossy w t
        ≡ some (
            after_offer takes lossy w frame what.id paths hash
              (record t { last_seq = number takes lossy w w.seq }))

  module _ (a : Applying) (s : Helper) (idle : s.pull_request ≡ none)
      (rest : List (ℕ × Bytes)) where
    -- The applier takes received files from the front of its queue, stages them and puts them on the
    -- clipboard, and a round finds their paths and their signature there, with a new sequence number,
    -- an open device and no pull. If the round comes after both steps of the applier, which are to set
    -- the clipboard and to store the signature, it writes nothing, and changes nothing but that it keeps
    -- the sequence number. If it comes between the two steps, it offers the files back, provided that
    -- their hash is neither the one sent last nor the one stored before.
    pub send_round-apply_files :
        (content p : Bytes) (ps : List Bytes) (sig total : ℕ) (r : Reassembler)
        → s.queue ≡ (kind_tar, content) ∷ rest
        → a.opens ≡ true
        → a.empties ≡ true
        → a.sets hdrop ≡ true
        → a.registered drop_effect ≡ true
        → a.sets drop_effect ≡ true
        → a.unpack_to_stage content ≡ some (p ∷ ps)
        → a.batch_signature (p ∷ ps) ≡ some (sig, total)
        → w.clipboard.file_list ≡ some (p ∷ ps)
        → w.clipboard.batch_signature (p ∷ ps) ≡ some (sig, total)
        → sig < 2 ^ 64
        → s.dev.opened ≡ true
        → number takes lossy w w.seq ≢ s.last_seq
        → All IsPath (p ∷ ps)
        → lossy (join (p ∷ ps)) ≡ join (p ∷ ps)
        → bit_xor sig kind_tar ≢ s.last_sent
        → bit_xor sig kind_tar ≢ s.applied.last_set
        → Quiet takes lossy w (apply_next a lossy s)
          × IsOffered r (p ∷ ps) (bit_xor sig kind_tar) (halfway a (p ∷ ps) rest s)
    unfolding put_files
    send_round-apply_files content p ps sig total r q opens empties set_paths known set_effect
          unpacked batch files same small opened news paths utf8 new_sent new_set =
        let (f, what, fed, k, e) =
          send_round-offer takes lossy w (halfway a (p ∷ ps) rest s) p ps sig total r small opened
            idle news files paths utf8 same new_sent new_set in
        (
          send_round-echo_files takes lossy w a s idle rest content p ps sig total q opens empties
              set_paths known set_effect unpacked batch files same,
          record { frame = f; what = what; seen = fed; files = k; writes = e },
        )
