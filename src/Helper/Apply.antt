-- ===== src/Helper/Apply.antt =====
-- windows/clipboard-agent/src/main.rs: the applier thread, `set_clipboard_files` and
-- `set_clipboard_image`.
-- `Applying` is what Windows, the image crate and the file system answer. A staged path is given
-- by the bytes and by the units of its UTF-16 form. The thread runs beside the send loop; `apply` is
-- all it does with one transfer, and `put_files` and `keep_files` are its two steps for files.
use beaglewing.Clipboard.Text.{content_hash}
use beaglewing.Clipframe.Defs.{kind_text, kind_png, kind_tar}
use beaglewing.Common.Bytes.{Bytes, u32_to_le}
use beaglewing.Helper.Hdrop.{build_hdrop}
use beaglewing.Helper.Lines.{windows_lines}
use beaglewing.Common.{
  ltb, ◌==◌, if◌then◌else◌, length, drop, ℕ, bit_xor, Bool, true, false, not, ◌&&◌, ◌||◌, Option,
  none, some, List, [], ◌∷◌, ◌++◌, map,
}

-- The formats that are set.
pub data Format : Type 0 where
  unicode hdrop drop_effect png dib : Format

-- `opens` is the opening of the clipboard, `empties` its emptying.
pub record Applying : Type 0 where
  pub opens : Bool
  pub empties : Bool
  pub registered : Format → Bool
  pub sets : Format → Bool
  pub png_to_bmp : Bytes → Option Bytes
  pub unpack_to_stage : Bytes → Option (List Bytes)
  pub utf16 : Bytes → List ℕ
  pub batch_signature : List Bytes → Option (ℕ × ℕ)

-- What is on the clipboard, and the hash of what was set last.
pub record Applied : Type 0 where
  pub contents : List (Format × Bytes)
  pub last_set : ℕ

module _ (w : Applying) where
  -- `set_without_clear`: the contents after it
  abbrev pub with_format : Format → Bytes → List (Format × Bytes) → List (Format × Bytes)
  with_format f bytes cs = if w.sets f then cs ++ ((f, bytes) ∷ []) else cs

  unfoldable pub set_clipboard_files :
      List Bytes → List (Format × Bytes) → List (Format × Bytes) × Bool
  set_clipboard_files paths cs =
      if not w.opens || not w.empties
      then (cs, false)
      else (let first = with_format hdrop (build_hdrop (map w.utf16 paths)) [] in
          if w.registered drop_effect
          then (with_format drop_effect (u32_to_le 1) first, w.sets hdrop && w.sets drop_effect)
          else (first, w.sets hdrop))

  unfoldable pub set_clipboard_image :
      Bytes → Bytes → List (Format × Bytes) → List (Format × Bytes) × Bool
  set_clipboard_image image bmp cs =
      if not w.opens || not w.empties
      then (cs, false)
      else (let first = if w.registered png then with_format png image [] else [] in
          let set_png = w.registered png && w.sets png in
          if ltb 14 (length bmp)
          then (with_format dib (drop 14 bmp) first, set_png || w.sets dib)
          else (first, set_png))

  -- `clipboard_win::set_clipboard` of a text, which replaces what was there
  unfoldable pub apply_text : (Bytes → Bytes) → Bytes → Applied → Applied
  apply_text lossy content a =
      let text = windows_lines (lossy content) in
      if w.sets unicode
      then record { contents = (unicode, text) ∷ []; last_set = content_hash kind_text text }
      else a

  abbrev pub kept_image : Bytes → List (Format × Bytes) × Bool → Applied → Applied
  kept_image image (cs, true) a = record { contents = cs; last_set = content_hash kind_png image }
  kept_image image (cs, false) a = record a { contents = cs }

  unfoldable pub apply_image : Bytes → Option Bytes → Applied → Applied
  unfolding set_clipboard_image
  apply_image image none a = a
  apply_image image (some bmp) a = kept_image image (set_clipboard_image image bmp a.contents) a

  -- The first step for staged files: they are put on the clipboard, and the answer says whether
  -- that worked. `last_set` is still the old one.
  unfoldable pub put_files : List Bytes → Applied → Applied × Bool
  unfolding set_clipboard_files
  put_files staged a =
      let r = set_clipboard_files staged a.contents in (record a { contents = r.0 }, r.1)

  -- The second step: the signature of the staged files is computed and stored.
  unfoldable pub keep_files : Option (ℕ × ℕ) → Applied → Applied
  keep_files (some (sig, total)) a = record a { last_set = bit_xor sig kind_tar }
  keep_files none a = a

  abbrev pub after_put : List Bytes → Applied × Bool → Applied
  after_put staged (a, true) = keep_files (w.batch_signature staged) a
  after_put staged (a, false) = a

  -- Both steps. The thread takes no lock around them: the send loop may run between the two.
  unfoldable pub apply_files : Option (List Bytes) → Applied → Applied
  unfolding put_files keep_files
  apply_files none a = a
  apply_files (some staged) a = after_put staged (put_files staged a)

  -- What the thread does with a transfer that the reader handed over.
  unfoldable pub apply : (Bytes → Bytes) → ℕ × Bytes → Applied → Applied
  unfolding apply_text apply_image apply_files
  apply lossy (kind, content) a =
      if kind == kind_text
      then apply_text lossy content a
      else if kind == kind_png
      then apply_image content (w.png_to_bmp content) a
      else if kind == kind_tar
      then apply_files (w.unpack_to_stage content) a
      else a
