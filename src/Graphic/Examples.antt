-- ===== src/Graphic/Examples.antt =====
-- The theorems on pixels, drawing and the console, at a screen of 1200 by 400 pixels.
use maizono_os.Base.{ℕ, ◌+◌, refl, ◌&&◌, true, List, [], ◌∷◌, arith, ltb, leb}
use maizono_os.Graphic.Pixel.{from_color}
use maizono_os.Graphic.FrameBuffer.{all_ascii, fill, fill_rect, write_char}
use maizono_os.Graphic.FrameBuffer.Drawn.{Drawn, stored}
use maizono_os.Graphic.FrameBuffer.Glyphs.{glyph_of_lem}
use maizono_os.Graphic.Cursor.{Messages, draw_cursor}
use maizono_os.Graphic.Cursor.Painted.{IsPainted, picture}
use maizono_os.Graphic.Cursor.Picture.{draw_cursor-IsPainted}
use maizono_os.Graphic.FrameBuffer.Shapes.{glyph_ink, fill-Drawn, fill_rect-Drawn, write_char-Drawn}
use maizono_os.Graphic.Console.{init, print}
use maizono_os.Graphic.Console.Text.{Page, feed, page_print}
use maizono_os.Graphic.Console.Safety.{Succeeds, print-Succeeds}
use maizono_os.Graphic.Console.Start.{IsStarted, empty_page, init-IsStarted}
use maizono_os.Graphic.Sample.{
  small, small-IsValid, black, screen-IsReady, terminal, terminal-Shows, static_console,
  static_console-IsUsable,
}
use maizono_os.Graphic.Static.{Static, kprintln}
use maizono_os.Graphic.Static.Reach.{
  IsUsable, Prints, page_pieces, kprintln-Prints, by_kprintln, Reach, here, later, Reach-Prints,
}

abbrev messages : Messages
messages = record { too_high = λ n. []; too_wide = λ n. []; unexpected = λ c. [] }

draw_cursor-IsPainted_example :
    IsPainted picture static_console (draw_cursor messages static_console)
draw_cursor-IsPainted_example = draw_cursor-IsPainted messages static_console screen-IsReady

fill-Drawn_example :
    Drawn small
      (λ a b. true)
      (stored small (from_color 0x28282800))
      black
      (fill small 0x28282800 black)
fill-Drawn_example = fill-Drawn small small-IsValid 0x28282800 black

fill_rect-Drawn_example :
    Drawn small
      (λ a b. (leb 16 a && ltb a (16 + 32)) && (leb 8 b && ltb b (8 + 24)))
      (stored small (from_color 0x28282800))
      black
      (fill_rect small 16 8 32 24 0x28282800 black)
fill_rect-Drawn_example =
    fill_rect-Drawn small small-IsValid 0x28282800 16 8 32 24 black (omega arith) (omega arith)
      (omega arith) (omega arith)

abbrev letter : List ℕ
letter = (glyph_of_lem 65).0

write_char-Drawn_example :
    Drawn small
      (glyph_ink letter 1192 384)
      (stored small (from_color 0xff000000))
      black
      (write_char small 1192 384 65 0xff000000 black)
write_char-Drawn_example =
    write_char-Drawn small small-IsValid 1192 384 0xff000000 (omega arith) (omega arith) 65 letter
      black (glyph_of_lem 65).1 (omega (arith, (glyph_of_lem 65).2))
      (omega (arith, (glyph_of_lem 65).2))

init-IsStarted_example : IsStarted 0x28282800 0xff000000 (init 0x28282800 0xff000000 terminal)
init-IsStarted_example = init-IsStarted 0x28282800 0xff000000 terminal screen-IsReady

print-Succeeds_example :
    Succeeds (page_print (72 ∷ 105 ∷ 10 ∷ []) empty_page) (print (72 ∷ 105 ∷ 10 ∷ []) terminal)
unfolding all_ascii
print-Succeeds_example = print-Succeeds (72 ∷ 105 ∷ 10 ∷ []) terminal empty_page refl terminal-Shows

-- "Hi" and a line feed as one piece, "!" as another.
abbrev pieces : List (List ℕ)
pieces = (72 ∷ 105 ∷ 10 ∷ []) ∷ (33 ∷ []) ∷ []

kprintln-Prints_example :
    Prints (feed (page_pieces pieces empty_page)) (kprintln pieces static_console)
unfolding all_ascii
kprintln-Prints_example =
    kprintln-Prints pieces static_console empty_page refl static_console-IsUsable

-- After one call of `kprintln`.
one_call : (u : Static) × Reach static_console u
unfolding all_ascii
one_call =
    let r = kprintln-Prints pieces static_console empty_page refl static_console-IsUsable in
    (r.out, later here (by_kprintln pieces refl r.returns))

Reach-Prints_example :
    (q : Page) × IsUsable q one_call.0
    × Prints (feed (page_pieces pieces q)) (kprintln pieces one_call.0)
unfolding all_ascii
Reach-Prints_example = Reach-Prints empty_page static_console-IsUsable one_call.1 pieces refl
