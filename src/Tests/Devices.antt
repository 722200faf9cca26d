-- ===== src/Tests/Devices.antt =====
-- The drivers and the menu.
use team.Prelude.{
  ℕ, ◌+◌, ◌-◌, ◌/◌, ◌^◌, ◌%◌, ◌<◌, ◌≡◌, refl, Bool, true, false, some, none, inl, inr, List, [],
  ◌∷◌, take, get_elem?, arith, if◌then◌else◌,
}
use team.Prelude.Int.{pos, negsuc}
use team.Lcd.{Ram, draw_line, draw_rect}
use team.Lcd.Line.Paint.{Between, Paints}
use team.Lcd.Line.Draw.{draw_line-Paints}
use team.Lcd.Rect.{Fills, draw_rect-Fills}
use team.Font.{font_5x7_col_char}
use team.Lcd.Letters.{draw_c, letter_bit, within, draw_c-pixel}
use team.Lcd.Panel.{show}
use team.Lcd.Show.{data_sent, show-pixel}
use team.Lcd.Circle.{draw_circle, draw_circle_returns}
use team.Lcd.Circle.Outline.{draw_circle-off}
use team.Neopixel.{
  Color, Neopixel, Pulse, neopixel_set_pixel_color, neopixel_show, gpio_clear, irq_disable,
  irq_restore, wave, up_loop,
}
use team.Neopixel.Colors.{set_behind}
use team.Neopixel.Signal.{receive, high_first, neopixel_show-receive}
use team.Motor.{Dcmotor, dcmotor_set_speed}
use team.Motor.Speed.{wanted, dcmotor_set_speed_lem}
use team.Multiplexer.{Multiplexer, multiplexer_receive, put, gpio_read}
use team.Multiplexer.Address.{number, guarded, multiplexer_receive_lem}

abbrev blank : Ram
blank x y = 0

draw_line-Paints_example :
    (out : Ram) × (draw_line 100 3 20 60 blank ≡ some (out, pos 0)) × Paints 100 3 20 60 blank out
draw_line-Paints_example =
    draw_line-Paints 100 3 20 60 blank (omega arith, omega arith) (omega arith, omega arith)

draw_rect-Fills_example :
    (out : Ram) × (draw_rect 30 5 10 40 true blank ≡ some (out, pos 0))
    × Fills (λ p q. Between 30 10 p × Between 5 40 q) blank out
draw_rect-Fills_example =
    draw_rect-Fills 30 5 10 40 blank (omega arith, omega arith) (omega arith, omega arith)

draw_c-pixel_example :
    (character : List ℕ) × (font_5x7_col_char 65 ≡ some character)
    × (ram' : Ram) × (draw_c 3 60 65 blank ≡ some (ram', pos 0))
    × (ram' 5 62 ≡ (if within 3 60 5 8 5 62 then letter_bit character (5 - 3) (62 - 60) else 0))
draw_c-pixel_example = draw_c-pixel 3 60 65 blank 5 62 (omega arith) (omega arith)

draw_circle_returns_example : (ram' : Ram) × (draw_circle 120 60 30 true blank ≡ some (ram', pos 0))
draw_circle_returns_example = draw_circle_returns 120 60 30 true blank

draw_circle-off_example :
    (ram' : Ram) × (draw_circle 60 30 10 false blank ≡ some (ram', pos 0)) × (ram' 71 30 ≡ 0)
draw_circle-off_example =
    draw_circle-off 60 30 10 blank 71 30 (omega arith) (omega arith) (omega arith) (omega arith)
      (inl (inr (omega arith)))

abbrev dots : Ram
dots x y = (x + y) % 2

show-pixel_example :
    (bytes : List ℕ) × (byte : ℕ) × (get_elem? (data_sent 3 8 4 true (show dots)) (45 / 8)
      ≡ some (45 / 8, 0, bytes))
    × (get_elem? bytes 100 ≡ some byte)
    × (byte / 2 ^ (45 % 8) % 2 ≡ 1)
show-pixel_example = show-pixel dots 100 45 3 8 4 (λ b. omega arith) (omega arith) (omega arith)

abbrev dim : Color
dim = record { r = 50; g = 50; b = 50 }

abbrev green : Color
green = record { r = 0; g = 255; b = 0 }

abbrev stripe : Neopixel
stripe = record { led_count = 2; data_out = 3; pixels = dim ∷ dim ∷ dim ∷ dim ∷ [] }

set_behind_example :
    (2 < 4
      → (dev' : Neopixel) × (neopixel_set_pixel_color stripe 2 green ≡ some (dev', pos 0))
        × (neopixel_show dev' ≡ neopixel_show stripe))
    × (◌≡◌ {A = ℕ} 2 4 → neopixel_set_pixel_color stripe 2 green ≡ none)
set_behind_example = set_behind stripe green

neopixel_show-receive_example :
    (s : List Pulse) × (neopixel_show stripe
      ≡ some (gpio_clear ∷ irq_disable ∷ wave s ∷ irq_restore ∷ []))
    × (receive 2 s ≡ take 2 stripe.pixels)
neopixel_show-receive_example = neopixel_show-receive stripe (omega arith) (omega arith)

-- A brightness of 50 is read as 76.
fifty_as_76 : high_first 0 (up_loop 50 0 8) ≡ 76
unfolding up_loop
fifty_as_76 = refl

abbrev motor : Dcmotor
motor = record { pwm = 0; channel = 1; freq = 1000; res = 100; dir_a = 13; dir_b = 18 }

dcmotor_set_speed_lem_example : dcmotor_set_speed motor (negsuc 32767) ≡ wanted (negsuc 32767) motor
dcmotor_set_speed_lem_example =
    dcmotor_set_speed_lem motor (negsuc 32767) (omega arith) (omega arith)

abbrev buttons : Multiplexer
buttons = record {
  receive = 22;
  addr_a = 17;
  addr_b = 16;
  addr_c = 23;
  curr_addr = 0;
  with_int = pos 1;
}

multiplexer_receive_lem_example :
    (a b c : Bool) × (number a b c ≡ 13 % 8)
    × (multiplexer_receive buttons 13 ≡ (
      record buttons { curr_addr = 13 },
      guarded buttons (put a 17 ∷ put b 16 ∷ put c 23 ∷ gpio_read 22 ∷ []),
    ))
multiplexer_receive_lem_example = multiplexer_receive_lem buttons 13 (omega arith)
