-- ===== src/Clipboard/Session/Echo.antt =====
-- What the agent itself puts on the clipboard is not sent back.
use beaglewing.Clipboard.Agent.{
  Agent, changed, arrived, Outside, stays, put_text, put_staged, put, on_complete, on_result,
  handle_frame,
}
use beaglewing.Clipboard.Session.{on_event, on_arrived, received}
use beaglewing.Clipboard.Text.{content_hash, unix_lines, copied_files}
use beaglewing.Clipframe.Defs.{kind_text, kind_tar}
use beaglewing.Clipframe.Reassembler.{complete, feed}
use beaglewing.Clipboard.Text.Lists.{IsLossless, parse_file_list-copied_files}
use beaglewing.Clipboard.Text.Uris.{IsTrim}
use beaglewing.Clipboard.Text.{parse_file_list}
use beaglewing.Common.Bytes.{IsByte, Bytes}
use beaglewing.Common.{
  ◌==◌, ==_iff, All, ℕ, bit_xor, ◌≡◌, refl, sym, ap, ◌∙◌, Bool, true, ◌||◌, none, some, List, [],
  ◌∷◌, ◌++◌, arith,
}

module _ (takes : List Bytes → Bytes → Bool) (trim lossy : Bytes → Bytes) (a : Agent)
    (f content : Bytes) (w later : Outside) where
  -- A report of the clipboard's watcher with the hash that the agent has kept.
  changed-last_set :
      (b : Agent) (kind : ℕ) (text : Bytes) (h : ℕ)
      → b.last_set ≡ h
      → on_event takes trim lossy later (changed kind text h) b ≡ stays b
  unfolding on_event
  changed-last_set b kind text h e =
      let same : (h == b.last_set) ≡ true = (==_iff h b.last_set).1 (sym e) in
      let either : (h == b.last_sent || h == b.last_set) ≡ true = ground (arith, same) in
      rw either refl

  handle_frame-complete :
      (kind : ℕ) (b : Agent)
      → (feed b.reasm f).1 ≡ complete kind content
      → handle_frame takes trim lossy w f b
        ≡ some
            (on_complete takes trim lossy w kind content (record b { reasm = (feed b.reasm f).0 }))
  unfolding handle_frame on_result
  handle_frame-complete kind b e =
      ap (λ x. on_result takes trim lossy w x (record b { reasm = (feed b.reasm f).0 })) e

  arrived-complete :
      (kind : ℕ)
      → (feed a.reasm f).1 ≡ complete kind content
      → on_event takes trim lossy w (arrived f) a
        ≡ received takes trim lossy w (
            some (
              on_complete takes trim lossy w kind content
                (record a { reasm = (feed a.reasm f).0; last_rx = w.now })))
  unfolding on_event on_arrived
  arrived-complete kind e =
      ap (received takes trim lossy w) (handle_frame-complete kind (record a { last_rx = w.now }) e)

  -- Where a frame completes a text and the clipboard takes it, the text with line feeds alone is
  -- put on the clipboard and nothing is written; and the watcher's report of this text, with the
  -- hash that the watcher computes, changes nothing, so that the text is not sent back.
  pub on_event-echo_text :
      (feed a.reasm f).1 ≡ complete kind_text content
      → w.sets ≡ true
      → (b : Agent) × (on_event takes trim lossy w (arrived f) a ≡ stays b)
        × (b.written ≡ a.written)
        × (b.clipboard ≡ a.clipboard ++ ((kind_text, unix_lines (lossy content)) ∷ []))
        × (on_event takes trim lossy later
              (changed kind_text
                (unix_lines (lossy content))
                (content_hash kind_text (unix_lines (lossy content))))
              b
            ≡ stays b)
  unfolding on_complete put_text put received
  on_event-echo_text e h =
      let text = unix_lines (lossy content) in
      let b : Agent = record a {
        reasm = (feed a.reasm f).0;
        last_rx = w.now;
        last_set = content_hash kind_text text;
        clipboard = a.clipboard ++ ((kind_text, text) ∷ []);
      } in
      (
        b,
        arrived-complete kind_text e ∙ rw h refl,
        refl,
        refl,
        changed-last_set b kind_text text _ refl,
      )

  -- Where a frame completes an archive, the archive unpacks to staged paths and the clipboard takes
  -- their list, the list is put on the clipboard, nothing is written and the other side's offer is
  -- forgotten; and the watcher's report of the list, with the hash of the batch, changes nothing, so
  -- that the files are not offered back. The batch is the same for the watcher and for the agent:
  -- the paths read from the list are the staged paths.
  pub on_event-echo_files :
      (staged : List Bytes) (sig total : ℕ)
      → IsTrim trim
      → IsLossless lossy
      → All (λ p. All IsByte p × (lossy p ≡ p)) staged
      → (feed a.reasm f).1 ≡ complete kind_tar content
      → w.sets ≡ true
      → w.unpack_to_stage content ≡ some staged
      → w.batch_signature staged ≡ some (sig, total)
      → (b : Agent) × (on_event takes trim lossy w (arrived f) a ≡ stays b)
        × (b.written ≡ a.written)
        × (b.remote_offer ≡ none)
        × (b.clipboard ≡ a.clipboard ++ ((kind_tar, copied_files staged) ∷ []))
        × (w.batch_signature (parse_file_list trim lossy (copied_files staged)) ≡ some (sig, total))
        × (on_event takes trim lossy later
              (changed kind_tar (copied_files staged) (bit_xor sig kind_tar))
              b
            ≡ stays b)
  unfolding on_complete put_text put put_staged received
  on_event-echo_files staged sig total t l paths e h u s =
      let b : Agent = record a {
        reasm = (feed a.reasm f).0;
        last_rx = w.now;
        last_set = bit_xor sig kind_tar;
        remote_offer = none;
        clipboard = a.clipboard ++ ((kind_tar, copied_files staged) ∷ []);
      } in
      (
        b,
        arrived-complete kind_tar e ∙ rw (u, h, s) refl,
        refl,
        refl,
        refl,
        rw (parse_file_list-copied_files trim lossy t l staged paths) s,
        changed-last_set b kind_tar (copied_files staged) _ refl,
      )
