-- ===== src/Clipframe/Defs.antt =====
-- The constants of protocol/clipframe/src/lib.rs.
use beaglewing.Common.{ℕ, ◌*◌}

abbrev pub frame_len : ℕ
frame_len = 1024

abbrev pub max_payload : ℕ
max_payload = 1018

abbrev pub t_ping : ℕ
t_ping = 0x01

abbrev pub t_pong : ℕ
t_pong = 0x02

abbrev pub t_start : ℕ
t_start = 0x10

abbrev pub t_data : ℕ
t_data = 0x11

abbrev pub t_end : ℕ
t_end = 0x12

abbrev pub t_abort : ℕ
t_abort = 0x13

abbrev pub t_ack : ℕ
t_ack = 0x14

abbrev pub t_offer : ℕ
t_offer = 0x20

abbrev pub t_pull : ℕ
t_pull = 0x21

abbrev pub ack_every : ℕ
ack_every = 128

abbrev pub ack_window : ℕ
ack_window = 256

abbrev pub kind_text : ℕ
kind_text = 1

abbrev pub kind_png : ℕ
kind_png = 2

abbrev pub kind_tar : ℕ
kind_tar = 3

-- Refuse absurd transfers before allocating for them.
abbrev pub max_transfer : ℕ
max_transfer = 64 * 1024 * 1024
