-- ===== src/Echo/Agree.antt =====
-- The two loops do the same for a key, but where one hides the console.
use neodymium.Base.{ℕ, ◌≡◌, ◌⊎◌, inl, inr, refl, Bool, false, ◌&&◌, ◌==◌}
use neodymium.Ps2.{key_f12}
use neodymium.Fbcon
use neodymium.Echo.{
  Terminal, on_console, set_visible, clear_screen, toggle_clear, toggle, kernel_key, yield_key,
}

-- Control, shift and F12, where there is a framebuffer.
abbrev pub toggles : ℕ → Terminal → Bool
toggles c t =
    c == key_f12 && (t.keyboard.ctrl_pressed && (t.keyboard.shift_pressed && t.screen.enabled))

toggle_shown :
    (now : ℕ) (t : Terminal) → t.console.visible ≡ false → toggle_clear now t ≡ toggle now t
unfolding toggle_clear toggle set_visible clear_screen on_console Fbcon.set_visible
toggle_shown now t hidden = rw hidden refl

-- Where `fb_ok` is what fb_is_enabled() says, the main loop and the loop of `yield` do the same for a
-- key, unless it is the one that toggles the console and the console is visible.
pub kernel_key-yield_key :
    (now c : ℕ) (t : Terminal)
    → (toggles c t ≡ false) ⊎ (t.console.visible ≡ false)
    → kernel_key now t.screen.enabled c t ≡ yield_key now c t
unfolding kernel_key yield_key
kernel_key-yield_key now c t (inr hidden) = rw (toggle_shown now t hidden) refl
kernel_key-yield_key now c t (inl other) = rw other refl
