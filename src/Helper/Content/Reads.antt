-- ===== src/Helper/Content/Reads.antt =====
-- What `get_clipboard_content` makes of files and of text.
use beaglewing.Clipboard.Text.{content_hash}
use beaglewing.Clipframe.Defs.{kind_text, kind_tar}
use beaglewing.Common.Bytes.{Bytes}
use beaglewing.Helper.Content.{WinClipboard, from_files, from_text, join, get_clipboard_content}
use beaglewing.Common.{ℕ, bit_xor, ◌≡◌, refl, none, some, List, ◌∷◌}

module _ (c : WinClipboard) where
  pub get_clipboard_content-files :
      (p : Bytes) (ps : List Bytes) (sig total : ℕ)
      → c.file_list ≡ some (p ∷ ps)
      → c.batch_signature (p ∷ ps) ≡ some (sig, total)
      → get_clipboard_content c
        ≡ some (record { kind = kind_tar; content = join (p ∷ ps); hash = bit_xor sig kind_tar })
  unfolding get_clipboard_content
  get_clipboard_content-files p ps sig total files batch = rw (files, from_files) (rw batch refl)

  pub get_clipboard_content-text :
      (b : ℕ) (bs : Bytes)
      → c.file_list ≡ none
      → c.unicode ≡ some (b ∷ bs)
      → get_clipboard_content c
        ≡ some
            (record { kind = kind_text; content = b ∷ bs; hash = content_hash kind_text (b ∷ bs) })
  unfolding get_clipboard_content
  get_clipboard_content-text b bs files same = rw (files, from_files) (rw (same, from_text) refl)
