-- ===== src/Clipboard/Watcher.antt =====
-- linux/input-router/src/clipboard.rs: `read_local_clipboard` and a round of the watcher.
-- `Desktop` is what xclip answers: the targets on offer, if it can tell, and the content of a target.
pub mod Own
use beaglewing.Clipboard.Agent.{Ev, changed}
use beaglewing.Clipboard.Text.{content_hash, parse_file_list}
use beaglewing.Clipframe.Defs.{kind_text, kind_png, kind_tar}
use beaglewing.Common.Bytes.{Bytes}
use beaglewing.Common.{
  ◌==◌, if◌then◌else◌, ◌>>=◌, ℕ, bit_xor, Bool, true, false, ◌||◌, Option, none, some, List, [],
  ◌∷◌,
}

-- The targets that the agent knows, by their names.
pub data Name : Type 0 where
  gnome_copied_files uri_list utf8_string string utf8_plain plain image_png : Name

pub record Desktop : Type 0 where
  pub targets : Option (Name → Bool)
  pub xclip_out : Name → Option Bytes
  pub batch_signature : List Bytes → Option (ℕ × ℕ)

-- kind, content and change hash
pub record Found : Type 0 where
  pub kind : ℕ
  pub content : Bytes
  pub hash : ℕ

unfoldable pub is_empty : List Bytes → Bool
is_empty [] = true
is_empty (p ∷ ps) = false

module _ (trim lossy : Bytes → Bytes) (d : Desktop) where
  -- A list of files; `none` where there are none or one of them cannot be read.
  unfoldable pub read_files : Name → Option Found
  unfolding is_empty
  read_files t = do
    content ← d.xclip_out t
    let paths = parse_file_list trim lossy content
    (sig, total) ← if is_empty paths then none else d.batch_signature paths
    some (record { kind = kind_tar; content = content; hash = bit_xor sig kind_tar })

  unfoldable pub read_as : ℕ → Name → Option Found
  read_as kind t = do
    content ← d.xclip_out t
    some (record { kind = kind; content = content; hash = content_hash kind content })

  unfoldable pub read_offered : (Name → Bool) → Option Found
  unfolding read_files read_as
  read_offered has =
      if has gnome_copied_files
      then read_files gnome_copied_files
      else if has uri_list
      then read_files uri_list
      else if has utf8_string || (has string || (has utf8_plain || has plain))
      then read_as kind_text (if has utf8_string then utf8_string else string)
      else if has image_png
      then read_as kind_png image_png
      else none

  unfoldable pub read_local_clipboard : Option Found
  unfolding read_offered
  read_local_clipboard = do has ← d.targets; read_offered has

-- The new `prev`, and the event that is sent.
unfoldable pub watch : ℕ → Option Found → ℕ × Option Ev
watch prev none = (prev, none)
watch prev (some x) =
    if x.hash == prev then (prev, none) else (x.hash, some (changed x.kind x.content x.hash))
