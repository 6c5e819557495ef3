-- ===== src/Zik/Dispatch/Requests.antt =====
-- What a request to the driver of c/zax-inspector/zik comes to.
use model_lib.Common.{
  ℕ, ◌+◌, ◌-◌, ◌%◌, ◌^◌, ◌≡◌, ◌≢◌, refl, sym, ◌∙◌, subst, true, false, ltb, if◌then◌else◌, inl, inr,
  ◌⊎◌, Option, none, some,
}
use model_lib.Zik.Status.{success, unsuccessful, nt_success}
use model_lib.Zik.Image.{rva_to_raw}
use model_lib.Zik.Service.{Outcome, close_handle}
use model_lib.Zik.Service.Results.{enum_ssdt-Compared, SsdtFailed, enum_ssdt-SsdtFailed}
use model_lib.Zik.Kernel.{enum_kernel}
use model_lib.Zik.Dispatch.{
  Request, ssdt_w, kernel_r, kernel_w, request_of, Driver, Surroundings, machine_of, serve, Irp,
  Completion, complete, reply, after_machine, device_dispatch,
}

module _ (irp : Irp) (env : Surroundings) (d : Driver) (control : irp.control ≡ true) where
  dispatched :
      (r : Request)
      → request_of irp.io_control_code ≡ r
      → device_dispatch irp env d ≡ complete irp.input_buffer_length (serve r env d)
  unfolding device_dispatch
  dispatched r e = simp (control, e) refl

  -- A request for the kernel's functions, to report or to restore them, fails and changes nothing.
  pub device_dispatch-kernel :
      (request_of irp.io_control_code ≡ kernel_r) ⊎ (request_of irp.io_control_code ≡ kernel_w)
      → device_dispatch irp env d
        ≡ some (record { status = unsuccessful; information = irp.input_buffer_length; driver = d })
  unfolding serve enum_kernel
  device_dispatch-kernel (inl e) = dispatched kernel_r e
  device_dispatch-kernel (inr e) = dispatched kernel_w e

  -- What a request to restore the service table comes to where `EnumSSDT` fails.
  abbrev pub Ignored : Option Completion → Type 0
  Ignored none = ⊥
  Ignored (some c) =
      (c.status ≡ success) × (c.driver.ssdt ≡ d.ssdt) × (c.driver.write_protect ≡ d.write_protect)

  forgets_answer :
      (o : Outcome)
      → SsdtFailed true env.kernel env.ssdt_base env.ssdt_limit env.ssdt_answers
          (machine_of d.ssdt none d)
          o
      → Ignored (
          complete irp.input_buffer_length
            (reply (λ s m. (success, record (after_machine m d) { ssdt = m.table })) o))
  forgets_answer none h = h
  forgets_answer (some (s, m)) h = (refl, h.1, h.3)

  -- Where the pool has a block for the file, and the service table is not found in the kernel's image, or
  -- its file cannot be opened or read, a request to restore the table leaves it as it is and yet
  -- completes with success.
  pub device_dispatch-Ignored :
      request_of irp.io_control_code ≡ ssdt_w
      → env.ssdt_answers.pool ≡ true
      → (rva_to_raw env.kernel env.ssdt_base ≡ 0)
        ⊎ ((nt_success env.ssdt_answers.create ≡ false)
            ⊎ (nt_success env.ssdt_answers.read ≡ false))
      → Ignored (device_dispatch irp env d)
  unfolding serve
  device_dispatch-Ignored e pool why = subst Ignored (sym (dispatched ssdt_w e)) (
      forgets_answer _ (
        enum_ssdt-SsdtFailed true env.kernel env.ssdt_base env.ssdt_limit env.ssdt_answers
          (machine_of d.ssdt none d) pool why))

  -- Where the table is found, its file can be opened and read and the pool has a block for it, a request
  -- to restore it completes with success: every entry below the limit is the file's, moved from the
  -- image's preferred base to where the kernel stands (modulo 2 ^ 32), no other entry has changed, nor
  -- has the shadow table, and write protection is on.
  pub device_dispatch-restores :
      request_of irp.io_control_code ≡ ssdt_w
      → rva_to_raw env.kernel env.ssdt_base ≢ 0
      → env.ssdt_answers.pool ≡ true
      → nt_success env.ssdt_answers.create ≡ true
      → nt_success env.ssdt_answers.read ≡ true
      → (c : Completion) × (device_dispatch irp env d ≡ some c)
        × (c.status ≡ success)
        × ((i : ℕ)
            → c.driver.ssdt i ≡ (
                if ltb i env.ssdt_limit
                then ((env.ssdt_answers.file (rva_to_raw env.kernel env.ssdt_base) i
                        + 2 ^ 32
                        - env.kernel.image_base % 2 ^ 32)
                      % 2 ^ 32
                    + env.kernel.base)
                  % 2 ^ 32
                else d.ssdt i))
        × (c.driver.shadow ≡ d.shadow)
        × (c.driver.write_protect ≡ true)
  unfolding serve
  device_dispatch-restores e found pool create read =
      let (m, done, h) =
        enum_ssdt-Compared true env.kernel env.ssdt_base env.ssdt_limit env.ssdt_answers
          (machine_of d.ssdt none d) found pool create read in
      let after : Driver = record (after_machine (close_handle env.ssdt_answers.handle m) d) {
        ssdt = m.table;
      } in
      (
        record { status = success; information = irp.input_buffer_length; driver = after },
        dispatched ssdt_w e ∙ simp done refl,
        refl,
        h.entries,
        refl,
        h.protection,
      )
