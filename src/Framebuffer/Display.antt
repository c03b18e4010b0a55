-- ===== src/Framebuffer/Display.antt =====
-- How the framebuffer is found and mapped: `fb_init` with the boot loader's record, and otherwise the
-- VBE ports with a scan of the PCI bus for the card. The ports are an interface; the messages are left
-- out, and the calls of the allocator and of `vmm_map_page` are those of their modules.
use neodymium.Base.{
  ℕ, zero, suc, ◌+◌, ◌*◌, ◌/◌, ◌%◌, bit_and, bit_or, Bool, true, false, not, ◌&&◌, Option, none,
  some, ltb, ◌==◌, if◌then◌else◌, u32, add32, for_below,
}
use neodymium.Vmm
use neodymium.Vmm.{Vmm, vmm_writable, has}
use neodymium.Framebuffer.{Screen}

-- The port instructions, on the state of the devices.
pub record Ports (D : Type 0) : Type 0 where
  pub outw : D → (port value : ℕ) → D
  pub inw : D → (port : ℕ) → ℕ × D
  pub outl : D → (port value : ℕ) → D
  pub inl : D → (port : ℕ) → ℕ × D

-- The fields of `struct multiboot_info` that `fb_init` reads.
pub record FramebufferInfo : Type 0 where
  pub flags : ℕ
  pub framebuffer_addr : ℕ
  pub framebuffer_pitch : ℕ
  pub framebuffer_width : ℕ
  pub framebuffer_height : ℕ
  pub framebuffer_bpp : ℕ

abbrev pub vbe_index_port : ℕ
vbe_index_port = 0x01CE

abbrev pub vbe_data_port : ℕ
vbe_data_port = 0x01CF

-- The registers, and the values of the last one.
abbrev pub vbe_id : ℕ
vbe_id = 0

abbrev pub vbe_xres : ℕ
vbe_xres = 1

abbrev pub vbe_yres : ℕ
vbe_yres = 2

abbrev pub vbe_bpp : ℕ
vbe_bpp = 3

abbrev pub vbe_enable : ℕ
vbe_enable = 4

abbrev pub vbe_disabled : ℕ
vbe_disabled = 0

abbrev pub vbe_enabled : ℕ
vbe_enabled = 1

abbrev pub vbe_lfb_enabled : ℕ
vbe_lfb_enabled = 0x40

-- The configuration address of a PCI function.
pub pci_addr : (bus dev func : ℕ) → ℕ
pci_addr bus dev func = bit_or (bit_or (bit_or 0x80000000 (bus * 65536)) (dev * 2048)) (func * 256)

-- Screen, address spaces and devices.
pub record Display (D : Type 0) : Type 0 where
  pub screen : Screen
  pub spaces : Vmm
  pub devices : D

-- `map_fb`; the pages that cannot be mapped are passed over, as in the source.
pub map_fb : Vmm → (phys size : ℕ) → Vmm
map_fb v phys size =
    for_below (add32 size 0xFFF / 0x1000)
      (λ i w. let page = u32 (phys + i * 0x1000) in (Vmm.map_page w page page vmm_writable).1) v

-- The end of `fb_init` for a screen of the given form.
pub show_at : Screen → (phys width height pitch bpp : ℕ) → Screen
show_at s phys width height pitch bpp = record s {
  ptr = phys;
  width = width;
  height = height;
  pitch = pitch;
  bpp = bpp;
  enabled = true;
}

module _ {D : Type 0} (ports : Ports D) where
  pub vbe_read : D → (idx : ℕ) → ℕ × D
  vbe_read d idx = ports.inw (ports.outw d vbe_index_port idx) vbe_data_port

  -- The value is cut to an `unsigned short`.
  pub vbe_write : D → (idx value : ℕ) → D
  vbe_write d idx value = ports.outw (ports.outw d vbe_index_port idx) vbe_data_port (value % 65536)

  -- The next part of a scan, unless the card is found.
  pub or_scan : Option ℕ × D → (D → Option ℕ × D) → Option ℕ × D
  or_scan (some bar, d) next = (some bar, d)
  or_scan (none, d) next = next d

  -- The functions of a device from `func` on, with `n` to come.
  pub pci_functions : (n bus dev func : ℕ) → D → Option ℕ × D
  pci_functions zero bus dev func d = (none, d)
  pci_functions (suc n) bus dev func d =
      let addr = pci_addr bus dev func in
      let (id, d1) = ports.inl (ports.outl d 0xCF8 addr) 0xCFC in
      let rest = pci_functions n bus dev (func + 1) d1 in
      let (bar0, d2) = ports.inl (ports.outl d1 0xCF8 (bit_or addr 0x10)) 0xCFC in
      if bit_and id 0xFFFF == 0xFFFF
      then (none, d1)
      else if bit_and id 0xFFFF == 0x1234 && bit_and (id / 65536) 0xFFFF == 0x1111
      then (some (bit_and bar0 0xFFFFF000), d2)
      else rest

  pub pci_devices : (n bus dev : ℕ) → D → Option ℕ × D
  pci_devices zero bus dev d = (none, d)
  pci_devices (suc n) bus dev d =
      or_scan (pci_functions 8 bus dev 0 d) (λ d1. pci_devices n bus (dev + 1) d1)

  pub pci_buses : (n bus : ℕ) → D → Option ℕ × D
  pci_buses zero bus d = (none, d)
  pci_buses (suc n) bus d = or_scan (pci_devices 32 bus 0 d) (λ d1. pci_buses n (bus + 1) d1)

  pub or_default : Option ℕ × D → ℕ × D
  or_default (some bar, d) = (bar, d)
  or_default (none, d) = (0xE0000000, d)

  pub pci_read_bar0 : D → ℕ × D
  pci_read_bar0 d = or_default (pci_buses 256 0 d)

  -- The writes of `vbe_init` and `fb_enable` that set a mode.
  pub set_mode : D → (width height bpp : ℕ) → D
  set_mode d width height bpp =
      vbe_write (vbe_write (vbe_write (vbe_write d vbe_xres width) vbe_yres height) vbe_bpp bpp)
        vbe_enable (bit_or vbe_enabled vbe_lfb_enabled)

  -- `vbe_init`, with the physical address; `none` is -1.
  pub vbe_init : D → (width height bpp : ℕ) → Option ℕ × D
  vbe_init d width height bpp =
      let (id, d1) = vbe_read d vbe_id in
      let d2 = set_mode (vbe_write d1 vbe_enable vbe_disabled) width height bpp in
      let (x, d3) = vbe_read d2 vbe_xres in
      let (y, d4) = vbe_read d3 vbe_yres in
      let (bar, d5) = pci_read_bar0 d4 in
      if ltb id 0xB0C0
      then (none, d1)
      else if not (x == width)
      then (none, d3)
      else if not (y == height)
      then (none, d4)
      else (some bar, d5)

  -- A mode of 32 bits a pixel that was set.
  pub vbe_shown : Display D → (width height : ℕ) → Option ℕ × D → Option (Display D) × D
  vbe_shown k width height (none, d) = (none, d)
  vbe_shown k width height (some phys, d) =
      let pitch = width * (32 / 8) in
      (
        some (record {
          screen = show_at k.screen phys width height pitch 32;
          spaces = map_fb k.spaces phys (pitch * height);
          devices = d;
        }),
        d,
      )

  -- `fb_init` without the boot loader's framebuffer: two modes, one after the other.
  pub or_smaller : Display D → Option (Display D) × D → Bool × Display D
  or_smaller k (some shown, d) = (true, shown)
  or_smaller k (none, d) = last_mode k (vbe_shown k 1024 768 (vbe_init d 1024 768 32))
    where
      last_mode : Display D → Option (Display D) × D → Bool × Display D
      last_mode k (some shown, d) = (true, shown)
      last_mode k (none, d) = (false, record k { devices = d })

  pub fb_init : Display D → FramebufferInfo → Bool × Display D
  fb_init k mbd =
      if has mbd.flags 4096
      then (
        true,
        record k {
          screen =
              show_at k.screen (u32 mbd.framebuffer_addr) mbd.framebuffer_width
                mbd.framebuffer_height mbd.framebuffer_pitch mbd.framebuffer_bpp;
          spaces =
              map_fb k.spaces (u32 mbd.framebuffer_addr)
                (u32 (mbd.framebuffer_pitch * mbd.framebuffer_height));
        },
      )
      else or_smaller k (vbe_shown k 1280 720 (vbe_init k.devices 1280 720 32))

  pub fb_enable : Display D → Display D
  fb_enable k =
      let s = k.screen in
      record k {
        devices = set_mode k.devices s.width s.height s.bpp;
        screen = record s { enabled = true };
      }
