-- ===== src/Graphic/Static/Reach.antt =====
-- Every way to print on the static console leaves it in a state in which it can print again.
use maizono_os.Base.{
  ℕ, ◌≡◌, refl, sym, subst, ◌∙◌, Bool, true, false, ◌&&◌, Option, none, some, List, [], ◌∷◌, arith,
}
use maizono_os.Base.Exec.{Exec, done}
use maizono_os.Error.{Error}
use maizono_os.Graphic.FrameBuffer.{all_ascii}
use maizono_os.Graphic.Console.{Terminal, write_str}
use maizono_os.Graphic.Console.Text.{Page, feed, page_print}
use maizono_os.Graphic.Console.Safety.{Shows, Succeeds, print-Succeeds, println-Succeeds}
use maizono_os.Graphic.Static.{Static, print, println, write_fmt, kprint, kprintln}

abbrev pub all_pieces : List (List ℕ) → Bool
all_pieces [] = true
all_pieces (piece ∷ rest) = all_ascii piece && all_pieces rest

-- The pieces, typed one after the other.
abbrev pub page_pieces : List (List ℕ) → Page → Page
page_pieces [] p = p
page_pieces (piece ∷ rest) p = page_pieces rest (page_print piece p)

-- The lock is free, and the console shows the page.
pub record IsUsable (p : Page) (s : Static) : Type 0 where
  pub unlocked : s.locked ≡ false
  pub shows : Shows s.terminal p

-- `result` is a normal return of a console that shows the page and can print again.
pub record Prints (p : Page) (result : Option Static) : Type 0 where
  pub out : Static
  pub returns : result ≡ some out
  pub usable : IsUsable p out

write_fmt-Succeeds :
    (pieces : List (List ℕ)) (t : Terminal) (p : Page)
    → all_pieces pieces ≡ true
    → Shows t p
    → Succeeds (page_pieces pieces p) (write_fmt pieces t)
unfolding write_fmt write_str
write_fmt-Succeeds [] t p ascii h = record { out = t; returns = refl; shows = h }
write_fmt-Succeeds (piece ∷ rest) t p ascii h =
    let first = print-Succeeds piece t p (ground arith) h in
    let others =
      write_fmt-Succeeds rest first.out (page_print piece p) (ground arith) first.shows in
    record { out = others.out; returns = rw first.returns others.returns; shows = others.shows }

-- With a free lock, the functions of the module do what the methods do.
print-returns :
    (text : List ℕ) (s : Static) (p : Page)
    → all_ascii text ≡ true
    → IsUsable p s
    → (out : Static) × (print text s ≡ done tt out) × IsUsable (page_print text p) out
unfolding print
print-returns text s p ascii u =
    let r = print-Succeeds text s.terminal p ascii u.shows in
    (
      record s { terminal = r.out },
      rw (u.unlocked, r.returns) refl,
      record { unlocked = u.unlocked; shows = r.shows },
    )

println-returns :
    (text : List ℕ) (s : Static) (p : Page)
    → all_ascii text ≡ true
    → IsUsable p s
    → (out : Static) × (println text s ≡ done tt out) × IsUsable (feed (page_print text p)) out
unfolding println
println-returns text s p ascii u =
    let r = println-Succeeds text s.terminal p ascii u.shows in
    (
      record s { terminal = r.out },
      rw (u.unlocked, r.returns) refl,
      record { unlocked = u.unlocked; shows = r.shows },
    )

kprint-Prints :
    (pieces : List (List ℕ)) (s : Static) (p : Page)
    → all_pieces pieces ≡ true
    → IsUsable p s
    → Prints (page_pieces pieces p) (kprint pieces s)
unfolding kprint
kprint-Prints pieces s p ascii u =
    let r = write_fmt-Succeeds pieces s.terminal p ascii u.shows in
    record {
      out = record s { terminal = r.out };
      returns = rw (u.unlocked, r.returns) refl;
      usable = record { unlocked = u.unlocked; shows = r.shows };
    }

-- On a usable console `kprintln` of ASCII pieces never panics, and the console is usable again and
-- shows, in its lines and in its pixels, the page with the pieces and a line feed typed on it.
pub kprintln-Prints :
    (pieces : List (List ℕ)) (s : Static) (p : Page)
    → all_pieces pieces ≡ true
    → IsUsable p s
    → Prints (feed (page_pieces pieces p)) (kprintln pieces s)
unfolding kprintln page_print all_ascii
kprintln-Prints pieces s p ascii u =
    let written = kprint-Prints pieces s p ascii u in
    let (out, returns, usable) =
      println-returns [] written.out (page_pieces pieces p) refl written.usable in
    record { out = out; returns = rw (written.returns, returns) refl; usable = usable }

-- While the console is locked, `kprintln` panics.
pub kprintln-locked :
    (pieces : List (List ℕ)) (s : Static) → s.locked ≡ true → kprintln pieces s ≡ none
unfolding kprintln kprint
kprintln-locked pieces s h = rw h refl

-- One call that prints, by any code of the kernel.
pub data Step : Static → Static → Type 0 where
  by_print :
      {s u : Static} (text : List ℕ) → all_ascii text ≡ true → print text s ≡ done tt u → Step s u
  by_println :
      {s u : Static} (text : List ℕ) → all_ascii text ≡ true → println text s ≡ done tt u → Step s u
  by_kprint :
      {s u : Static} (pieces : List (List ℕ))
      → all_pieces pieces ≡ true
      → kprint pieces s ≡ some u
      → Step s u
  by_kprintln :
      {s u : Static} (pieces : List (List ℕ))
      → all_pieces pieces ≡ true
      → kprintln pieces s ≡ some u
      → Step s u

pub data Reach (s : Static) : Static → Type 0 where
  here : Reach s s
  later : {u v : Static} → Reach s u → Step u v → Reach s v

abbrev Usable : Static → Type 0
Usable s = (p : Page) × IsUsable p s

Prints-Usable : {p : Page} {o : Option Static} {u : Static} → Prints p o → o ≡ some u → Usable u
Prints-Usable {p} {o} {u} r e =
    let same : r.out ≡ u = cc (sym r.returns ∙ e) in (p, subst (λ s. IsUsable p s) same r.usable)

done-Usable :
    {p : Page} {r : Exec Static Error (Unit {0})} {out u : Static}
    → r ≡ done tt out
    → r ≡ done tt u
    → IsUsable p out
    → Usable u
done-Usable {p} {r} {out} {u} returns e usable =
    let same : out ≡ u = cc (sym returns ∙ e) in (p, subst (λ s. IsUsable p s) same usable)

Step-Usable : {s u : Static} → Step s u → Usable s → Usable u
Step-Usable (by_print {s} text ascii e) (p, h) =
    let (out, returns, usable) = print-returns text s p ascii h in done-Usable returns e usable
Step-Usable (by_println {s} text ascii e) (p, h) =
    let (out, returns, usable) = println-returns text s p ascii h in done-Usable returns e usable
Step-Usable (by_kprint {s} pieces ascii e) (p, h) =
    Prints-Usable (kprint-Prints pieces s p ascii h) e
Step-Usable (by_kprintln {s} pieces ascii e) (p, h) =
    Prints-Usable (kprintln-Prints pieces s p ascii h) e

-- However the kernel prints ASCII text on a console that is usable, the console stays usable: it shows
-- some page, its lock is free, and the next `kprintln` of any ASCII text returns.
pub Reach-Prints :
    {s u : Static} (p : Page)
    → IsUsable p s
    → Reach s u
    → (pieces : List (List ℕ)) → all_pieces pieces ≡ true
    → (q : Page) × IsUsable q u × Prints (feed (page_pieces pieces q)) (kprintln pieces u)
Reach-Prints {s} p h here pieces ascii = (p, h, kprintln-Prints pieces s p ascii h)
Reach-Prints {s} {u = v} p h (later {u} r step) pieces ascii =
    let (o, usable, prints) = Reach-Prints p h r pieces ascii in
    let (q, usable) = Step-Usable step (o, usable) in
    (q, usable, kprintln-Prints pieces v q ascii usable)
