-- ===== src/Graphic/Display.antt =====
-- The frame buffer and the console, as `main` starts them one after the other.
use maizono_os.Base.{ℕ, ◌≤◌, ◌≡◌, false, arith}
use maizono_os.Base.Exec.{Exec, done}
use maizono_os.Error.{Error}
use maizono_os.Graphic.Pixel.{GraphicInfo}
use maizono_os.Graphic.FrameBuffer.{from_info}
use maizono_os.Graphic.FrameBuffer.Pixels.{IsValid}
use maizono_os.Graphic.FrameBuffer.Shapes.{fill-Drawn}
use maizono_os.Graphic.Screen
use maizono_os.Graphic.Screen.{Screen}
use maizono_os.Graphic.Console.Drawing.{IsReady}

-- The graphic information describes a frame buffer that holds the console.
pub record IsLarge (info : GraphicInfo) : Type 0 where
  pub valid : IsValid (from_info info)
  pub wide : 1200 ≤ info.width
  pub high : 400 ≤ info.height

-- `result` is a normal return of a screen that can hold the console.
pub record IsFilled (result : Exec Screen Error (Unit {0})) : Type 0 where
  pub out : Screen
  pub returns : result ≡ done tt out
  pub ready : IsReady out

pub init-IsFilled :
    (info : GraphicInfo) (color : ℕ) (s : Screen)
    → s.locked ≡ false
    → IsLarge info
    → IsFilled (Screen.init info color s)
unfolding Screen.init from_info
init-IsFilled info color s unlocked large =
    let drawn = fill-Drawn (from_info info) large.valid color s.memory in
    record {
      out = record { buf = from_info info; locked = s.locked; memory = drawn.out };
      returns = ground (arith, unlocked, drawn.returns);
      ready = record {
        unlocked = unlocked;
        valid = large.valid;
        wide = large.wide;
        high = large.high;
      };
    }
