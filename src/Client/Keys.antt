-- ===== src/Client/Keys.antt =====
-- Keys of the on-screen keyboard.
use rmcast.Base.{
  ℕ, ◌%◌, ◌^◌, ◌≡◌, inl, inr, refl, [], ◌∷◌, ◌++◌, append_assoc, some, true, false, ◌==◌, ==_iff,
  if◌then◌else◌, arith, Bool-cases,
}
use rmcast.Client.{
  Client, input_vkb_press, input_vkb_release, send_virtual_key_press, map_ascii_to_x11_key,
  remap_modifier_key, handle_key, handle_button, input_btn_press,
}

-- A code that stands for a key.
abbrev pub IsKey : ℕ → Type 0
IsKey code = ((code == 0xF001) ≡ false) × ((code == 0xF000) ≡ false) × ((code == 0) ≡ false)

-- The keysym that the server is sent for a code.
abbrev pub keysym : ℕ → ℕ
keysym code =
    if code % 2 ^ 16 == 0 then remap_modifier_key code else map_ascii_to_x11_key (code % 2 ^ 16)

-- A key that is pressed and let go is sent to the server as one keysym going down and the same one
-- coming up, after whatever was sent before, and nothing else changes. The codes that raise and
-- lower the keyboard, and the code 0, send no key at all on their release.
pub handle_key_pair :
    (now now' : ℕ) (c : Client) (code : ℕ)
    → (IsKey code
        → (d : Client) × (handle_key now c input_vkb_press code ≡ some d)
          × (handle_key now' d input_vkb_release code
              ≡ some (record c {
                keys =
                    c.keys
                    ++ record { key = keysym code; is_down = true }
                      ∷ record { key = keysym code; is_down = false }
                      ∷ [];
              })))
      × ((code == 0xF001) ≡ true → handle_key now c input_vkb_release code ≡ some c)
      × ((code == 0xF000) ≡ true → handle_key now c input_vkb_release code ≡ some c)
      × ((code == 0) ≡ true → handle_key now c input_vkb_release code ≡ some c)
unfolding handle_key send_virtual_key_press
handle_key_pair now now' c code = (
  λ (a, b, e). elim (Bool-cases (code % 2 ^ 16 == 0)) [
    | inl f ↦
        rw (a, b, e, f)
          (
            send_virtual_key_press c (remap_modifier_key code) true,
            refl,
            twice (remap_modifier_key code),
          )
    | inr f ↦
        rw (a, b, e, f)
          (
            send_virtual_key_press c (map_ascii_to_x11_key (code % 2 ^ 16)) true,
            refl,
            twice (map_ascii_to_x11_key (code % 2 ^ 16)),
          )
  ],
  λ e. rw e refl,
  λ e. elim (Bool-cases (code == 0xF001)) [ inl f ↦ rw f refl | inr f ↦ rw (f, e) refl ],
  λ e. idle ((==_iff code 0).0 e),
)
  where
    twice :
        (k : ℕ)
        → some (send_virtual_key_press (send_virtual_key_press c k true) k false)
          ≡ some (record c {
            keys =
                c.keys
                ++ record { key = k; is_down = true } ∷ record { key = k; is_down = false } ∷ [];
          })
    twice k = λ i. some (record c {
      keys =
          append_assoc c.keys (record { key = k; is_down = true } ∷ [])
            (record { key = k; is_down = false } ∷ []) i;
    })

    idle : code ≡ 0 → handle_key now c input_vkb_release code ≡ some c
    idle e = rw (e, handle_key) refl

-- A button that comes up does nothing, and no button sends anything to the server.
handle_button_lem :
    (key_power key_home : ℕ) (c : Client) (type code : ℕ)
    → ((handle_button key_power key_home c type code).pointers ≡ c.pointers)
      × ((handle_button key_power key_home c type code).keys ≡ c.keys)
      × ((type == input_btn_press) ≡ false → handle_button key_power key_home c type code ≡ c)
unfolding handle_button
handle_button_lem key_power key_home c type code = ground arith
