-- ===== src/Gui/SameAsMenu.antt =====
-- The window of gui.py beside the menu of main.py: the same inputs start the same calls.
use privacy_toolkit.Prelude.{ℕ, ◌≡◌, refl, sym, ◌∙◌, ap, Bool, true, false, String, some, [], ◌∷◌}
use privacy_toolkit.Exec.{Res, ok, raised, proceed, ◌>>=◌}
use privacy_toolkit.Host.{Host}
use privacy_toolkit.Text.{chars, strip}
use privacy_toolkit.State.{World}
use privacy_toolkit.Environment.{Environment}
use privacy_toolkit.ProxyOnly.{enable_proxy_kill_switch}
use privacy_toolkit.Cli.{
  on_world, input, prompt_enable, prompt_text, prompt_or, prompt_or_none, to_int, answers,
  or_default, or_none, int,
}
use privacy_toolkit.Cli.Handlers.{choose_proxy_switch, verify_if_active}
use privacy_toolkit.Gui.{Form, strip_or_none, empty}
use privacy_toolkit.Gui.Handlers.{enable_proxy_only}
use privacy_toolkit.Gui.Buttons.{outcome}
use privacy_toolkit.Gui.Threads.{target-state}

module _ (H : Host) where
  -- What is left of both after `enable_proxy_kill_switch`.
  after_enable :
      (r : Res Bool × World H) (line : String)
      → answers "n" line ≡ true
      → (proceed r.0 (verify_if_active H) (record { world = r.1; typed = line ∷ [] })).1.world ≡ r.1
  unfolding verify_if_active ◌>>=◌ input
  after_enable (ok true, w) line declined = rw declined refl
  after_enable (ok false, w) line declined = refl
  after_enable (raised e, w) line declined = refl

  menu_proxy :
      (env : Environment) (enable host port ptype user pw verify : String) (n : ℕ) (w : World H)
      → answers "enable" enable ≡ true
      → int (chars (strip port)) ≡ some n
      → answers "n" verify ≡ true
      → (choose_proxy_switch H env (record {
        world = w;
        typed = enable ∷ host ∷ port ∷ ptype ∷ user ∷ pw ∷ verify ∷ [];
      })).1.world
        ≡ (enable_proxy_kill_switch H env
            (record {
              host = strip host;
              port = n;
              proxy_type = or_default "socks5" ptype;
              username = or_none user;
              password = or_none pw;
            })
            false
            w).1
  unfolding choose_proxy_switch ◌>>=◌ prompt_enable prompt_text prompt_or prompt_or_none input
      to_int on_world
  menu_proxy env enable host port ptype user pw verify n w on number declined =
      simp (on, number) (after_enable _ verify declined)

  window_proxy :
      (env : Environment) (f : Form) (n : ℕ) (w : World H)
      → int (chars (strip f.px_port)) ≡ some n
      → empty (strip f.px_host) ≡ false
      → (outcome (enable_proxy_only H env f) w).1
        ≡ (enable_proxy_kill_switch H env
            (record {
              host = strip f.px_host;
              port = n;
              proxy_type = f.px_type;
              username = or_none f.px_user;
              password = or_none f.px_pass;
            })
            false
            w).1
  unfolding enable_proxy_only strip_or_none or_none
  window_proxy env f n w number host = simp (number, host) (target-state _ w)

  -- The proxy tab and the choice of the menu, given the same host, port, user name and password, the
  -- same type of proxy once its default is put in, a host that is not blank and a port of decimal
  -- digits, and where the menu's offer to verify is declined: they leave the same world, also
  -- where the call raises.
  pub enable_proxy_only-as_in_menu :
      (env : Environment) (f : Form) (enable ptype verify : String) (n : ℕ) (w : World H)
      → int (chars (strip f.px_port)) ≡ some n
      → empty (strip f.px_host) ≡ false
      → or_default "socks5" ptype ≡ f.px_type
      → answers "enable" enable ≡ true
      → answers "n" verify ≡ true
      → (outcome (enable_proxy_only H env f) w).1
        ≡ (choose_proxy_switch H env (record {
          world = w;
          typed = enable ∷ f.px_host ∷ f.px_port ∷ ptype ∷ f.px_user ∷ f.px_pass ∷ verify ∷ [];
        })).1.world
  enable_proxy_only-as_in_menu env f enable ptype verify n w number host kind on declined =
      window_proxy env f n w number host
      ∙ (ap
            (λ t.
              (enable_proxy_kill_switch H env
                (record {
                  host = strip f.px_host;
                  port = n;
                  proxy_type = t;
                  username = or_none f.px_user;
                  password = or_none f.px_pass;
                })
                false w).1)
            (sym kind)
          ∙ sym (
              menu_proxy env enable f.px_host f.px_port ptype f.px_user f.px_pass verify n w on
                number declined))
