-- ===== src/Elf/Types.antt =====
-- The structures and constants of <sys/elf.h> that src/elf_loader.c and src/arm_patch.c read.
use alpine_on_qnx.Prelude.{ℕ, Bool, not, ◌&&◌, List, [], ◌∷◌, ◌==◌}

-- `Elf32_Ehdr`, with the bytes of `e_ident` that are looked at.
pub record ElfHeader : Type 0 where
  pub magic : List ℕ
  pub ident_class : ℕ
  pub ident_encoding : ℕ
  pub ident_version : ℕ
  pub e_type : ℕ
  pub e_machine : ℕ
  pub e_version : ℕ
  pub e_entry : ℕ
  pub e_phoff : ℕ
  pub e_shoff : ℕ
  pub e_ehsize : ℕ
  pub e_phentsize : ℕ
  pub e_phnum : ℕ
  pub e_shentsize : ℕ
  pub e_shnum : ℕ

-- `Elf32_Shdr`
pub record SectionHeader : Type 0 where
  pub sh_type : ℕ
  pub sh_flags : ℕ
  pub sh_addr : ℕ
  pub sh_offset : ℕ
  pub sh_size : ℕ
  pub sh_addralign : ℕ

-- ELFMAG
abbrev pub is_elf_magic : List ℕ → Bool
is_elf_magic (a ∷ b ∷ c ∷ d ∷ []) = a == 0x7f && b == b'E' && c == b'L' && d == b'F'
is_elf_magic _ = not (0 == 0)

-- ELFCLASS32, ELFDATA2LSB, EV_CURRENT, EM_ARM, ET_EXEC, ET_DYN
abbrev pub elfclass32 : ℕ
elfclass32 = 1

abbrev pub elfdata2lsb : ℕ
elfdata2lsb = 1

abbrev pub ev_current : ℕ
ev_current = 1

abbrev pub em_arm : ℕ
em_arm = 40

abbrev pub et_exec : ℕ
et_exec = 2

abbrev pub et_dyn : ℕ
et_dyn = 3

-- PT_LOAD, PT_INTERP, SHT_PROGBITS
abbrev pub pt_load : ℕ
pt_load = 1

abbrev pub pt_interp : ℕ
pt_interp = 3

abbrev pub sht_progbits : ℕ
sht_progbits = 1

-- SHF_WRITE, SHF_EXECINSTR; PF_X, PF_W
abbrev pub shf_write : ℕ
shf_write = 1

abbrev pub shf_execinstr : ℕ
shf_execinstr = 4

abbrev pub pf_x : ℕ
pf_x = 1

abbrev pub pf_w : ℕ
pf_w = 2

-- sizeof(Elf32_Ehdr), sizeof(Elf32_Phdr), sizeof(Elf32_Shdr)
abbrev pub ehdr_size : ℕ
ehdr_size = 52

abbrev pub phdr_size : ℕ
phdr_size = 32

abbrev pub shdr_size : ℕ
shdr_size = 40
