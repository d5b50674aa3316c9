-- ===== src/Helper/Content.antt =====
-- windows/clipboard-agent/src/main.rs: `get_clipboard_content`.
-- `WinClipboard` is what the Windows clipboard answers, with the conversion of images and the
-- signature of a batch. A text is its UTF-8 bytes.
pub mod Reads
use beaglewing.Clipboard.Text.{content_hash}
use beaglewing.Clipboard.Watcher.{Found}
use beaglewing.Clipframe.Defs.{kind_text, kind_png, kind_tar}
use beaglewing.Common.Bytes.{Bytes}
use beaglewing.Common.{◌>>=◌, ℕ, bit_xor, Option, none, some, List, [], ◌∷◌, ◌++◌}

-- `png` is what `get_vec` reads of the PNG format, if it is registered and available and the
-- clipboard opens.
pub record WinClipboard : Type 0 where
  pub file_list : Option (List Bytes)
  pub unicode : Option Bytes
  pub png : Option Bytes
  pub bitmap : Option Bytes
  pub bmp_to_png : Bytes → Option Bytes
  pub batch_signature : List Bytes → Option (ℕ × ℕ)

-- `join("\n")`
unfoldable pub join : List Bytes → Bytes
join [] = []
join (p ∷ []) = p
join (p ∷ q ∷ ps) = p ++ (10 ∷ join (q ∷ ps))

found : ℕ → Bytes → Found
found kind content = record { kind = kind; content = content; hash = content_hash kind content }

module _ (c : WinClipboard) where
  unfoldable pub from_bitmap : Option Bytes → Option Found
  unfolding found
  from_bitmap none = none
  from_bitmap (some bmp) = do png ← c.bmp_to_png bmp; some (found kind_png png)

  unfoldable pub from_png : Option Bytes → Option Found
  unfolding found from_bitmap
  from_png (some (b ∷ bs)) = some (found kind_png (b ∷ bs))
  from_png _ = from_bitmap c.bitmap

  unfoldable pub from_text : Option Bytes → Option Found
  unfolding found from_png
  from_text (some (b ∷ bs)) = some (found kind_text (b ∷ bs))
  from_text _ = from_png c.png

  -- A list of files that cannot be read is an early return.
  unfoldable pub from_files : Option (List Bytes) → Option Found
  unfolding join from_text
  from_files (some (p ∷ ps)) = do
    (sig, total) ← c.batch_signature (p ∷ ps)
    some (record { kind = kind_tar; content = join (p ∷ ps); hash = bit_xor sig kind_tar })
  from_files _ = from_text c.unicode

  unfoldable pub get_clipboard_content : Option Found
  unfolding from_files
  get_clipboard_content = from_files c.file_list
