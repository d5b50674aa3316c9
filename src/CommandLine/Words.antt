-- ===== src/CommandLine/Words.antt =====
-- linux/input-router/src/main.rs: the words of the command line, as bytes.
use beaglewing.Common.Bytes.{Bytes}
use beaglewing.Common.{[], ◌∷◌}

-- "run"
abbrev pub word_run : Bytes
word_run = 114 ∷ 117 ∷ 110 ∷ []

-- "clipboard"
abbrev pub word_clipboard : Bytes
word_clipboard = 99 ∷ 108 ∷ 105 ∷ 112 ∷ 98 ∷ 111 ∷ 97 ∷ 114 ∷ 100 ∷ []

-- "pull"
abbrev pub word_pull : Bytes
word_pull = 112 ∷ 117 ∷ 108 ∷ 108 ∷ []

-- "tray"
abbrev pub word_tray : Bytes
word_tray = 116 ∷ 114 ∷ 97 ∷ 121 ∷ []

-- "list"
abbrev pub word_list : Bytes
word_list = 108 ∷ 105 ∷ 115 ∷ 116 ∷ []

-- "observe"
abbrev pub word_observe : Bytes
word_observe = 111 ∷ 98 ∷ 115 ∷ 101 ∷ 114 ∷ 118 ∷ 101 ∷ []

-- "send-test"
abbrev pub word_send_test : Bytes
word_send_test = 115 ∷ 101 ∷ 110 ∷ 100 ∷ 45 ∷ 116 ∷ 101 ∷ 115 ∷ 116 ∷ []

-- "--relay"
abbrev pub opt_relay : Bytes
opt_relay = 45 ∷ 45 ∷ 114 ∷ 101 ∷ 108 ∷ 97 ∷ 121 ∷ []

-- "--bridge"
abbrev pub opt_bridge : Bytes
opt_bridge = 45 ∷ 45 ∷ 98 ∷ 114 ∷ 105 ∷ 100 ∷ 103 ∷ 101 ∷ []

-- "--remote-size"
abbrev pub opt_remote_size : Bytes
opt_remote_size = 45 ∷ 45 ∷ 114 ∷ 101 ∷ 109 ∷ 111 ∷ 116 ∷ 101 ∷ 45 ∷ 115 ∷ 105 ∷ 122 ∷ 101 ∷ []

-- "--verbose"
abbrev pub opt_verbose : Bytes
opt_verbose = 45 ∷ 45 ∷ 118 ∷ 101 ∷ 114 ∷ 98 ∷ 111 ∷ 115 ∷ 101 ∷ []

-- "--device"
abbrev pub opt_device : Bytes
opt_device = 45 ∷ 45 ∷ 100 ∷ 101 ∷ 118 ∷ 105 ∷ 99 ∷ 101 ∷ []

-- "--grab"
abbrev pub opt_grab : Bytes
opt_grab = 45 ∷ 45 ∷ 103 ∷ 114 ∷ 97 ∷ 98 ∷ []

-- "--host"
abbrev pub opt_host : Bytes
opt_host = 45 ∷ 45 ∷ 104 ∷ 111 ∷ 115 ∷ 116 ∷ []

-- "--click"
abbrev pub opt_click : Bytes
opt_click = 45 ∷ 45 ∷ 99 ∷ 108 ∷ 105 ∷ 99 ∷ 107 ∷ []

-- "beaglewing:4870"
abbrev pub default_bridge : Bytes
default_bridge =
    98 ∷ 101 ∷ 97 ∷ 103 ∷ 108 ∷ 101 ∷ 119 ∷ 105 ∷ 110 ∷ 103 ∷ 58 ∷ 52 ∷ 56 ∷ 55 ∷ 48 ∷ []

-- "beaglewing:4871"
abbrev pub default_relay : Bytes
default_relay =
    98 ∷ 101 ∷ 97 ∷ 103 ∷ 108 ∷ 101 ∷ 119 ∷ 105 ∷ 110 ∷ 103 ∷ 58 ∷ 52 ∷ 56 ∷ 55 ∷ 49 ∷ []
