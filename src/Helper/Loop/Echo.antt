-- ===== src/Helper/Loop/Echo.antt =====
-- What the helper put on the clipboard itself is not sent back.
use mathlib.Core.Path.{subst}
use beaglewing.Clipboard.Text.{content_hash}
use beaglewing.Clipboard.Watcher.{Found}
use beaglewing.Clipframe.Defs.{kind_text, kind_tar}
use beaglewing.Common.Bytes.{Bytes, u32_to_le}
use beaglewing.Helper.Apply.{
  Applying, Applied, unicode, hdrop, drop_effect, apply, apply_files, put_files, keep_files,
}
use beaglewing.Helper.Content.Reads.{get_clipboard_content-text, get_clipboard_content-files}
use beaglewing.Helper.Content.{get_clipboard_content}
use beaglewing.Helper.Defs.{Helper, apply_next, apply_front}
use beaglewing.Helper.Device.{ensure_open}
use beaglewing.Helper.Hdrop.{build_hdrop}
use beaglewing.Helper.Lines.{windows_lines}
use beaglewing.Helper.Loop.{Round, on_pull, on_content, on_clipboard, send_round, number}
use beaglewing.Common.{
  ◌==◌, Bool-cases, ◌>>=◌, ℕ, bit_xor, ◌≡◌, refl, sym, ap, ◌∙◌, inl, inr, Bool, true, ◌||◌, none,
  some, List, [], ◌∷◌, map, arith,
}

module _ (takes : List Bytes → Bytes → Bool) (lossy : Bytes → Bytes) (w : Round) where
  -- A round in which nothing is sent.
  abbrev pub Quiet : Helper → Type 0
  Quiet s =
      send_round takes lossy w s
      ≡ some (record s { dev = ensure_open w.found s.dev; last_seq = number takes lossy w w.seq })

  on_content-own :
      (s : Helper) (x : Found)
      → x.hash ≡ s.applied.last_set
      → on_content takes lossy w (some x) s ≡ some s
  unfolding on_content
  on_content-own s x h =
      let own : (x.hash == s.last_sent || x.hash == s.applied.last_set) ≡ true = ground arith in
      rw own refl

  on_clipboard-own :
      (s : Helper) (x : Found)
      → get_clipboard_content w.clipboard ≡ some x
      → x.hash ≡ s.applied.last_set
      → on_clipboard takes lossy w s ≡ some (record s { last_seq = number takes lossy w w.seq })
  unfolding on_clipboard
  on_clipboard-own s x e h = elim (Bool-cases (number takes lossy w w.seq == s.last_seq)) [
    | inl same ↦
        let k : s.last_seq ≡ number takes lossy w w.seq = ground arith in
        rw same (ap (λ z. some (record s { last_seq = z })) k)
    | inr news ↦
        rw (news, e) (on_content-own (record s { last_seq = number takes lossy w w.seq }) x h)
  ]

  send_round-own :
      (s : Helper) (x : Found)
      → s.pull_request ≡ none
      → get_clipboard_content w.clipboard ≡ some x
      → x.hash ≡ s.applied.last_set
      → Quiet s
  unfolding send_round on_pull
  send_round-own s x idle e h =
      let u : Helper = record s { dev = ensure_open w.found s.dev } in
      ap (λ z. on_pull takes lossy w z u >>= on_clipboard takes lossy w) idle
      ∙ on_clipboard-own u x e h

  module _ (a : Applying) (s : Helper) (idle : s.pull_request ≡ none)
      (rest : List (ℕ × Bytes)) where
    apply_next-eq :
        (x : ℕ × Bytes) (z : Applied)
        → s.queue ≡ x ∷ rest
        → apply a lossy x s.applied ≡ z
        → apply_next a lossy s ≡ record s { queue = rest; applied = z }
    unfolding apply_next
    apply_next-eq x z q e =
        ap (λ y. apply_front a lossy y s) q
        ∙ unfold apply_front in ap (λ y. record s { queue = rest; applied = y }) e

    apply-text :
        (content : Bytes) (b : ℕ) (bs : Bytes)
        → a.sets unicode ≡ true
        → windows_lines (lossy content) ≡ b ∷ bs
        → apply a lossy (kind_text, content) s.applied
          ≡ record { contents = (unicode, b ∷ bs) ∷ []; last_set = content_hash kind_text (b ∷ bs) }
    unfolding apply
    apply-text content b bs ok text = rw (ok, text) refl

    -- When the applier has put a received text on the clipboard and stored its hash, a later round
    -- that finds this text there, whatever the sequence number, writes nothing, and changes nothing
    -- but that it keeps the number and opens a closed device.
    pub send_round-echo_text :
        (content : Bytes) (b : ℕ) (bs : Bytes)
        → s.queue ≡ (kind_text, content) ∷ rest
        → a.sets unicode ≡ true
        → windows_lines (lossy content) ≡ b ∷ bs
        → w.clipboard.file_list ≡ none
        → w.clipboard.unicode ≡ some (b ∷ bs)
        → Quiet (apply_next a lossy s)
    send_round-echo_text content b bs q ok text files same =
        let t = apply_next-eq (kind_text, content) _ q (apply-text content b bs ok text) in
        subst Quiet (sym t) (
          send_round-own
            (record s {
              queue = rest;
              applied = record {
                contents = (unicode, b ∷ bs) ∷ [];
                last_set = content_hash kind_text (b ∷ bs);
              };
            })
            _ idle (get_clipboard_content-text w.clipboard b bs files same) refl)

    apply-files :
        (content : Bytes) (staged : List Bytes) (sig total : ℕ)
        → a.opens ≡ true
        → a.empties ≡ true
        → a.sets hdrop ≡ true
        → a.registered drop_effect ≡ true
        → a.sets drop_effect ≡ true
        → a.unpack_to_stage content ≡ some staged
        → a.batch_signature staged ≡ some (sig, total)
        → apply a lossy (kind_tar, content) s.applied ≡ record {
          contents = (hdrop, build_hdrop (map a.utf16 staged)) ∷ (drop_effect, u32_to_le 1) ∷ [];
          last_set = bit_xor sig kind_tar;
        }
    unfolding apply
    apply-files content staged sig total opens empties set_paths known set_effect unpacked batch =
        rw (unpacked, apply_files, put_files, keep_files)
          (rw (opens, empties, known, set_paths, set_effect, batch) refl)

    -- When the applier has done both steps for received files, which are to put the staged paths on
    -- the clipboard and then to store their signature, a later round that finds these paths there
    -- with the same signature writes nothing, and changes nothing but that it keeps the sequence
    -- number and opens a closed device. A round between the two steps is not covered.
    pub send_round-echo_files :
        (content p : Bytes) (ps : List Bytes) (sig total : ℕ)
        → s.queue ≡ (kind_tar, content) ∷ rest
        → a.opens ≡ true
        → a.empties ≡ true
        → a.sets hdrop ≡ true
        → a.registered drop_effect ≡ true
        → a.sets drop_effect ≡ true
        → a.unpack_to_stage content ≡ some (p ∷ ps)
        → a.batch_signature (p ∷ ps) ≡ some (sig, total)
        → w.clipboard.file_list ≡ some (p ∷ ps)
        → w.clipboard.batch_signature (p ∷ ps) ≡ some (sig, total)
        → Quiet (apply_next a lossy s)
    send_round-echo_files content p ps sig total q opens empties set_paths known set_effect unpacked
          batch files same =
        let z : Applied = record {
          contents = (hdrop, build_hdrop (map a.utf16 (p ∷ ps))) ∷ (drop_effect, u32_to_le 1) ∷ [];
          last_set = bit_xor sig kind_tar;
        } in
        let t =
          apply_next-eq (kind_tar, content) z q
            (apply-files content (p ∷ ps) sig total opens empties set_paths known set_effect
              unpacked batch) in
        subst Quiet (sym t) (
          send_round-own (record s { queue = rest; applied = z }) _ idle
            (get_clipboard_content-files w.clipboard p ps sig total files same) refl)
