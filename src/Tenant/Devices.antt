-- ===== src/Tenant/Devices.antt =====
-- `nextDevice` of internal/tenant/state.go.
use robi_net.Base.{
  ℕ, zero, suc, ◌+◌, ◌≤◌, ◌<◌, ◌≡◌, ◌⊎◌, ◌==◌, ◌∙◌, runes, sym, refl, true, false, List, Text,
  values, Bool-cases, inl, inr, arith,
}
use robi_net.Strings.{show_number}
use robi_net.Tenant.State.{Data, devices, is_taken, device_name, device_from, next_device}

device_from_cases :
    (left i : ℕ) (taken : List Text)
    → (is_taken (device_from left i taken) taken ≡ false)
      ⊎ ((device_from left i taken ≡ device_name 255)
          × ((j : ℕ) → i ≤ j → j < i + left → is_taken (device_name j) taken ≡ true))
unfolding device_from
device_from_cases zero i taken = inr (refl, (λ j lo hi. absurd (omega arith)))
device_from_cases (suc left) i taken = elim (Bool-cases (is_taken (device_name i) taken)) [
  | inr e ↦ rw (e, device_from) (inl e)
  | inl e ↦ elim (device_from_cases left (suc i) taken) [
    | inl f ↦ rw (e, device_from) (inl f)
    | inr (f, g) ↦
        rw (e, device_from)
          (inr (
            f,
            λ j lo hi. elim (Bool-cases (i == j)) [
              | inl same ↦ let k : i ≡ j = ground arith in rw (sym k) e
              | inr other ↦ g j (ground arith) (ground arith)
            ],
          ))
  ]
]

-- The name of the next device is free, as long as one of the 256 names is: either no connection has
-- it, or it is `robinet255` though a connection has that name, and the connections have all the names.
pub next_device-free :
    (d : Data)
    → let taken = devices (values d.connections) in
      (is_taken (next_device d) taken ≡ false)
      ⊎ ((next_device d ≡ runes "robinet255")
          × (is_taken (runes "robinet255") taken ≡ true)
          × ((j : ℕ) → j < 256 → is_taken (device_name j) taken ≡ true))
unfolding next_device show_number
next_device-free d =
    let taken = devices (values d.connections) in
    elim (device_from_cases 256 0 taken) [
      | inl e ↦ inl e
      | inr (e, f) ↦
          let last = f 255 (omega arith) (omega arith) in
          inr (e ∙ last_name, rw last_name at last, λ j lt. f j (omega arith) lt)
    ]
  where
    last_name : device_name 255 ≡ runes "robinet255"
    last_name = refl
