-- ===== src/X86/Opcode.antt =====
-- The enum OPCODE of src/arch/x86_64/x86_64_mnemonic.hpp: a name for each one-byte opcode.
use voidwalk.Common.{ℕ}

pub data Opcode : Type 0 where
  add_eb_gb add_ev_gv add_gb_eb add_gv_ev add_al_ib add_eax_iv : Opcode
  push_es pop_es or_eb_gb or_ev_gv or_gb_eb or_gv_ev : Opcode
  or_al_ib or_eax_iv push_cs twobyte adc_eb_gb adc_ev_gv : Opcode
  adc_gb_eb adc_gv_ev adc_al_ib adc_eax_iv push_ss pop_ss : Opcode
  sbb_eb_gb sbb_ev_gv sbb_gb_eb sbb_gv_ev sbb_al_ib sbb_eax_iv : Opcode
  push_ds pop_ds and_eb_gb and_ev_gv and_gb_eb and_gv_ev : Opcode
  and_al_ib and_eax_iv es daa sub_eb_gb sub_ev_gv : Opcode
  sub_gb_eb sub_gv_ev sub_al_ib sub_eax_iv cs das : Opcode
  xor_eb_gb xor_ev_gv xor_gb_eb xor_gv_ev xor_al_ib xor_eax_iv : Opcode
  ss aaa cmp_eb_gb cmp_ev_gv cmp_gb_eb cmp_gv_ev : Opcode
  cmp_al_ib cmp_eax_iv ds aas inc_eax inc_ecx : Opcode
  inc_edx inc_ebx inc_esp inc_ebp inc_esi inc_edi : Opcode
  dec_eax dec_ecx dec_edx dec_ebx dec_esp dec_ebp : Opcode
  dec_esi dec_edi push_eax push_ecx push_edx push_ebx : Opcode
  push_esp push_ebp push_esi push_edi pop_eax pop_ecx : Opcode
  pop_edx pop_ebx pop_esp pop_ebp pop_esi pop_edi : Opcode
  pusha popa bound_gv_ma arpl_ew_gw fs gs : Opcode
  opsize adsize push_iv imul_gv_ev_iv push_ib imul_gv_ev_ib : Opcode
  insb_yb_dx insw_yz_dx outsb_dx_xb outsw_dx_xv jo jno : Opcode
  jb jnb jz jnz jbe ja : Opcode
  js jns jp jnp jl jnl : Opcode
  jle jnle grp1_eb_ib grp1_ev_iz grp1_eb_ib2 grp1_ev_ib : Opcode
  test_eb_gb test_ev_gv xchg_eb_gb xchg_ev_gv mov_eb_gb mov_ev_gv : Opcode
  mov_gb_eb mov_gv_ev mov_ew_sw lea_gv_m mov_sw_ew pop_ev : Opcode
  nop xchg_eax_ecx xchg_eax_edx xchg_eax_ebx xchg_eax_esp xchg_eax_ebp : Opcode
  xchg_eax_esi xchg_eax_edi cbw cwd call_ap fwait : Opcode
  pushf_fv popf_fv sahf lahf mov_al_ob mov_eax_ov : Opcode
  mov_ob_al mov_ov_eax movsb_xb_yb movsw_xv_yv cmpsb_xb_yb cmpsw_xv_yv : Opcode
  test_al_ib test_eax_iv stosb_yb_al stosw_yv_eax lodsb_al_xb lodsw_eax_xv : Opcode
  scasb_al_yb scasw_eax_yv mov_al_ib mov_cl_ib mov_dl_ib mov_bl_ib : Opcode
  mov_ah_ib mov_ch_ib mov_dh_ib mov_bh_ib mov_eax_iv mov_ecx_iv : Opcode
  mov_edx_iv mov_ebx_iv mov_esp_iv mov_ebp_iv mov_esi_iv mov_edi_iv : Opcode
  grp2_eb_ib grp2_ev_ib ret_iw ret les_gv_mp lds_gv_mp : Opcode
  mov_eb_ib mov_ev_iv enter_iw_ib leave retf_iw retf : Opcode
  int3 int_ib into iret grp2_eb1 grp2_ev1 : Opcode
  grp2_eb_cl grp2_ev_cl aam_ib aad_ib salc xlat : Opcode
  esc0 esc1 esc2 esc3 esc4 esc5 : Opcode
  esc6 esc7 loopnz_jb loopz_jb loop_jb jecxz_jb : Opcode
  in_al_ib in_eax_ib out_ib_al out_ib_eax call_jv jmp_jv : Opcode
  jmp_ap jmp_jb in_al_dx in_eax_dx out_dx_al out_dx_eax : Opcode
  lock int1 repne rep hlt cmc : Opcode
  grp3_eb grp3_ev clc stc cli sti : Opcode
  cld std grp4 grp5 : Opcode

-- The enumerator's value.
unfoldable pub code_of : Opcode → ℕ
code_of add_eb_gb = 0x00
code_of add_ev_gv = 0x01
code_of add_gb_eb = 0x02
code_of add_gv_ev = 0x03
code_of add_al_ib = 0x04
code_of add_eax_iv = 0x05
code_of push_es = 0x06
code_of pop_es = 0x07
code_of or_eb_gb = 0x08
code_of or_ev_gv = 0x09
code_of or_gb_eb = 0x0a
code_of or_gv_ev = 0x0b
code_of or_al_ib = 0x0c
code_of or_eax_iv = 0x0d
code_of push_cs = 0x0e
code_of twobyte = 0x0f
code_of adc_eb_gb = 0x10
code_of adc_ev_gv = 0x11
code_of adc_gb_eb = 0x12
code_of adc_gv_ev = 0x13
code_of adc_al_ib = 0x14
code_of adc_eax_iv = 0x15
code_of push_ss = 0x16
code_of pop_ss = 0x17
code_of sbb_eb_gb = 0x18
code_of sbb_ev_gv = 0x19
code_of sbb_gb_eb = 0x1a
code_of sbb_gv_ev = 0x1b
code_of sbb_al_ib = 0x1c
code_of sbb_eax_iv = 0x1d
code_of push_ds = 0x1e
code_of pop_ds = 0x1f
code_of and_eb_gb = 0x20
code_of and_ev_gv = 0x21
code_of and_gb_eb = 0x22
code_of and_gv_ev = 0x23
code_of and_al_ib = 0x24
code_of and_eax_iv = 0x25
code_of es = 0x26
code_of daa = 0x27
code_of sub_eb_gb = 0x28
code_of sub_ev_gv = 0x29
code_of sub_gb_eb = 0x2a
code_of sub_gv_ev = 0x2b
code_of sub_al_ib = 0x2c
code_of sub_eax_iv = 0x2d
code_of cs = 0x2e
code_of das = 0x2f
code_of xor_eb_gb = 0x30
code_of xor_ev_gv = 0x31
code_of xor_gb_eb = 0x32
code_of xor_gv_ev = 0x33
code_of xor_al_ib = 0x34
code_of xor_eax_iv = 0x35
code_of ss = 0x36
code_of aaa = 0x37
code_of cmp_eb_gb = 0x38
code_of cmp_ev_gv = 0x39
code_of cmp_gb_eb = 0x3a
code_of cmp_gv_ev = 0x3b
code_of cmp_al_ib = 0x3c
code_of cmp_eax_iv = 0x3d
code_of ds = 0x3e
code_of aas = 0x3f
code_of inc_eax = 0x40
code_of inc_ecx = 0x41
code_of inc_edx = 0x42
code_of inc_ebx = 0x43
code_of inc_esp = 0x44
code_of inc_ebp = 0x45
code_of inc_esi = 0x46
code_of inc_edi = 0x47
code_of dec_eax = 0x48
code_of dec_ecx = 0x49
code_of dec_edx = 0x4a
code_of dec_ebx = 0x4b
code_of dec_esp = 0x4c
code_of dec_ebp = 0x4d
code_of dec_esi = 0x4e
code_of dec_edi = 0x4f
code_of push_eax = 0x50
code_of push_ecx = 0x51
code_of push_edx = 0x52
code_of push_ebx = 0x53
code_of push_esp = 0x54
code_of push_ebp = 0x55
code_of push_esi = 0x56
code_of push_edi = 0x57
code_of pop_eax = 0x58
code_of pop_ecx = 0x59
code_of pop_edx = 0x5a
code_of pop_ebx = 0x5b
code_of pop_esp = 0x5c
code_of pop_ebp = 0x5d
code_of pop_esi = 0x5e
code_of pop_edi = 0x5f
code_of pusha = 0x60
code_of popa = 0x61
code_of bound_gv_ma = 0x62
code_of arpl_ew_gw = 0x63
code_of fs = 0x64
code_of gs = 0x65
code_of opsize = 0x66
code_of adsize = 0x67
code_of push_iv = 0x68
code_of imul_gv_ev_iv = 0x69
code_of push_ib = 0x6a
code_of imul_gv_ev_ib = 0x6b
code_of insb_yb_dx = 0x6c
code_of insw_yz_dx = 0x6d
code_of outsb_dx_xb = 0x6e
code_of outsw_dx_xv = 0x6f
code_of jo = 0x70
code_of jno = 0x71
code_of jb = 0x72
code_of jnb = 0x73
code_of jz = 0x74
code_of jnz = 0x75
code_of jbe = 0x76
code_of ja = 0x77
code_of js = 0x78
code_of jns = 0x79
code_of jp = 0x7a
code_of jnp = 0x7b
code_of jl = 0x7c
code_of jnl = 0x7d
code_of jle = 0x7e
code_of jnle = 0x7f
code_of grp1_eb_ib = 0x80
code_of grp1_ev_iz = 0x81
code_of grp1_eb_ib2 = 0x82
code_of grp1_ev_ib = 0x83
code_of test_eb_gb = 0x84
code_of test_ev_gv = 0x85
code_of xchg_eb_gb = 0x86
code_of xchg_ev_gv = 0x87
code_of mov_eb_gb = 0x88
code_of mov_ev_gv = 0x89
code_of mov_gb_eb = 0x8a
code_of mov_gv_ev = 0x8b
code_of mov_ew_sw = 0x8c
code_of lea_gv_m = 0x8d
code_of mov_sw_ew = 0x8e
code_of pop_ev = 0x8f
code_of nop = 0x90
code_of xchg_eax_ecx = 0x91
code_of xchg_eax_edx = 0x92
code_of xchg_eax_ebx = 0x93
code_of xchg_eax_esp = 0x94
code_of xchg_eax_ebp = 0x95
code_of xchg_eax_esi = 0x96
code_of xchg_eax_edi = 0x97
code_of cbw = 0x98
code_of cwd = 0x99
code_of call_ap = 0x9a
code_of fwait = 0x9b
code_of pushf_fv = 0x9c
code_of popf_fv = 0x9d
code_of sahf = 0x9e
code_of lahf = 0x9f
code_of mov_al_ob = 0xa0
code_of mov_eax_ov = 0xa1
code_of mov_ob_al = 0xa2
code_of mov_ov_eax = 0xa3
code_of movsb_xb_yb = 0xa4
code_of movsw_xv_yv = 0xa5
code_of cmpsb_xb_yb = 0xa6
code_of cmpsw_xv_yv = 0xa7
code_of test_al_ib = 0xa8
code_of test_eax_iv = 0xa9
code_of stosb_yb_al = 0xaa
code_of stosw_yv_eax = 0xab
code_of lodsb_al_xb = 0xac
code_of lodsw_eax_xv = 0xad
code_of scasb_al_yb = 0xae
code_of scasw_eax_yv = 0xaf
code_of mov_al_ib = 0xb0
code_of mov_cl_ib = 0xb1
code_of mov_dl_ib = 0xb2
code_of mov_bl_ib = 0xb3
code_of mov_ah_ib = 0xb4
code_of mov_ch_ib = 0xb5
code_of mov_dh_ib = 0xb6
code_of mov_bh_ib = 0xb7
code_of mov_eax_iv = 0xb8
code_of mov_ecx_iv = 0xb9
code_of mov_edx_iv = 0xba
code_of mov_ebx_iv = 0xbb
code_of mov_esp_iv = 0xbc
code_of mov_ebp_iv = 0xbd
code_of mov_esi_iv = 0xbe
code_of mov_edi_iv = 0xbf
code_of grp2_eb_ib = 0xc0
code_of grp2_ev_ib = 0xc1
code_of ret_iw = 0xc2
code_of ret = 0xc3
code_of les_gv_mp = 0xc4
code_of lds_gv_mp = 0xc5
code_of mov_eb_ib = 0xc6
code_of mov_ev_iv = 0xc7
code_of enter_iw_ib = 0xc8
code_of leave = 0xc9
code_of retf_iw = 0xca
code_of retf = 0xcb
code_of int3 = 0xcc
code_of int_ib = 0xcd
code_of into = 0xce
code_of iret = 0xcf
code_of grp2_eb1 = 0xd0
code_of grp2_ev1 = 0xd1
code_of grp2_eb_cl = 0xd2
code_of grp2_ev_cl = 0xd3
code_of aam_ib = 0xd4
code_of aad_ib = 0xd5
code_of salc = 0xd6
code_of xlat = 0xd7
code_of esc0 = 0xd8
code_of esc1 = 0xd9
code_of esc2 = 0xda
code_of esc3 = 0xdb
code_of esc4 = 0xdc
code_of esc5 = 0xdd
code_of esc6 = 0xde
code_of esc7 = 0xdf
code_of loopnz_jb = 0xe0
code_of loopz_jb = 0xe1
code_of loop_jb = 0xe2
code_of jecxz_jb = 0xe3
code_of in_al_ib = 0xe4
code_of in_eax_ib = 0xe5
code_of out_ib_al = 0xe6
code_of out_ib_eax = 0xe7
code_of call_jv = 0xe8
code_of jmp_jv = 0xe9
code_of jmp_ap = 0xea
code_of jmp_jb = 0xeb
code_of in_al_dx = 0xec
code_of in_eax_dx = 0xed
code_of out_dx_al = 0xee
code_of out_dx_eax = 0xef
code_of lock = 0xf0
code_of int1 = 0xf1
code_of repne = 0xf2
code_of rep = 0xf3
code_of hlt = 0xf4
code_of cmc = 0xf5
code_of grp3_eb = 0xf6
code_of grp3_ev = 0xf7
code_of clc = 0xf8
code_of stc = 0xf9
code_of cli = 0xfa
code_of sti = 0xfb
code_of cld = 0xfc
code_of std = 0xfd
code_of grp4 = 0xfe
code_of grp5 = 0xff
