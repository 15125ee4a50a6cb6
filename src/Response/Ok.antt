-- ===== src/Response/Ok.antt =====
-- `at_response_ok` (at_response.cpp): an OK completes the command that was sent last, and the
-- next command of the initialisation, or of a call, is queued.
use yate_datacard.At.{
  AtCmd, AtCommand, AtRes, at_command, cmd_at, cmd_at_a, cmd_at_cgmi, cmd_at_cgmm, cmd_at_cgmr,
  cmd_at_cgsn, cmd_at_cimi, cmd_at_clip, cmd_at_clir, cmd_at_clvl, cmd_at_cmee, cmd_at_cmgd,
  cmd_at_cmgf, cmd_at_cmgr, cmd_at_cnmi, cmd_at_cnum, cmd_at_cops_init, cmd_at_cpin,
  cmd_at_cpin_enter, cmd_at_cpms, cmd_at_creg, cmd_at_creg_init, cmd_at_csq, cmd_at_cssn,
  cmd_at_cvoice, cmd_at_d, cmd_at_ddsetex, cmd_at_e, cmd_at_u2diag, cmd_at_z, res_ok,
}
use yate_datacard.Device.{Device, append_command}
use yate_datacard.Env.{Env}
use yate_datacard.Prelude.{
  Bool, Bytes, Option, [], codes, eq_ℤ, false, if◌then◌else◌, length, ltb, negsuc, none, pos, some,
  true, ℤ, ◌%◌, ◌&&◌, ◌++◌, ◌+◌, ◌==◌,
}

-- What a case of the switch leaves: the device, and whether it returns -1 at once.
abbrev Next : Type 0
Next = Device × Bool

abbrev send : Device → Bytes → AtCmd → Next
send d text cmd = (append_command d (at_command text cmd), false)

-- `if(!m_initialized) m_commandQueue.append(new ATCommand(text, cmd));`
abbrev send_init : Device → Bytes → AtCmd → Next
send_init d text cmd = if d.initialized then (d, false) else send d text cmd

-- `case CMD_AT_CPIN`
unfoldable pub ok_cpin : Device → Next
ok_cpin d =
    if d.initialized
    then (d, false)
    else if eq_ℤ d.simstatus (pos 0)
    then send d (codes "AT+CIMI") cmd_at_cimi
    else if eq_ℤ d.simstatus (pos 1) && (ltb 0 (length d.sim_pin) && d.pincount == 0)
    then send (record d { pincount = (d.pincount + 1) % 256 }) (codes "AT+CPIN=" ++ d.sim_pin)
        cmd_at_cpin_enter
    else (d, true)

-- The cases that initialise the modem.
unfoldable pub ok_init : Env → AtCmd → Device → Next
unfolding ok_cpin
ok_init env cmd_at d =
    if d.reset_datacard
    then send_init d (codes "ATZ") cmd_at_z
    else send_init d (codes "ATE0") cmd_at_e
ok_init env cmd_at_z d = send d (codes "ATE0") cmd_at_e
ok_init env cmd_at_e d =
    if eq_ℤ d.u2diag (negsuc 0)
    then send_init d (codes "AT+CGMI") cmd_at_cgmi
    else send_init d (codes "AT^U2DIAG=" ++ env.string_of_int d.u2diag) cmd_at_u2diag
ok_init env cmd_at_u2diag d = send_init d (codes "AT+CGMI") cmd_at_cgmi
ok_init env cmd_at_cgmi d = send_init d (codes "AT+CGMM") cmd_at_cgmm
ok_init env cmd_at_cgmm d = send_init d (codes "AT+CGMR") cmd_at_cgmr
ok_init env cmd_at_cgmr d = send_init d (codes "AT+CMEE=0") cmd_at_cmee
ok_init env cmd_at_cmee d = send_init d (codes "AT+CGSN") cmd_at_cgsn
ok_init env cmd_at_cgsn d = send_init d (codes "AT+CPIN?") cmd_at_cpin
ok_init env cmd_at_cimi d = send_init d (codes "AT+COPS=0,0") cmd_at_cops_init
ok_init env cmd_at_cpin d = ok_cpin d
ok_init env cmd_at_cpin_enter d = send_init d (codes "AT+CPIN?") cmd_at_cpin
ok_init env cmd_at_cops_init d = send_init d (codes "AT+CREG=2") cmd_at_creg_init
ok_init env cmd_at_creg_init d = send_init d (codes "AT+CREG?") cmd_at_creg
ok_init env cmd_at_creg d = send_init d (codes "AT+CNUM") cmd_at_cnum
ok_init env cmd_at_cnum d = send_init d (codes "AT^CVOICE?") cmd_at_cvoice
ok_init env cmd_at_cvoice d =
    send_init (record d { has_voice = true }) (codes "AT+CLIP=1") cmd_at_clip
ok_init env cmd_at_clip d = send_init d (codes "AT+CSSN=1,1") cmd_at_cssn
ok_init env cmd_at_cssn d = send_init d (codes "AT+CMGF=0") cmd_at_cmgf
ok_init env cmd_at_cmgf d =
    send_init (record d { use_ucs2_encoding = true }) (codes "AT+CPMS=\"ME\",\"ME\",\"ME\"")
      cmd_at_cpms
ok_init env cmd_at_cpms d = send_init d (codes "AT+CNMI=2,1,0,0,0") cmd_at_cnmi
ok_init env cmd_at_cnmi d = if d.initialized then (record d { has_sms = true }, false) else (
  append_command (record d { has_sms = true; initialized = true })
      (at_command (codes "AT+CSQ") cmd_at_csq),
  false,
)
ok_init env _ d = (d, false)

dial : Option Bytes → Device → Next
dial none d = (d, false)
dial (some number) d = send d (codes "ATD" ++ (number ++ codes ";")) cmd_at_d

delete_sms : Option Bytes → Device → Next
delete_sms none d = (d, false)
delete_sms (some index) d = send d (codes "AT+CMGD=" ++ index) cmd_at_cmgd

-- The cases behind the initialisation; those that only write to the log do nothing.
unfoldable pub ok_call : AtCmd → Option Bytes → Device → Next
unfolding dial delete_sms
ok_call cmd_at_a obj d = send (record d { audio_buf = [] }) (codes "AT^DDSETEX=2") cmd_at_ddsetex
ok_call cmd_at_clir obj d = dial obj d
ok_call cmd_at_d obj d = send d (codes "AT^DDSETEX=2") cmd_at_ddsetex
ok_call cmd_at_cmgr obj d = if d.auto_delete_sms then delete_sms obj d else (d, false)
ok_call cmd_at_clvl obj d =
    if d.volume_synchronized
    then (d, false)
    else send (record d { volume_synchronized = true }) (codes "AT+CLVL=5") cmd_at_clvl
ok_call _ obj d = (d, false)

-- The two parts of the switch have no case in common.
unfoldable pub is_call_cmd : AtCmd → Bool
is_call_cmd cmd_at_a = true
is_call_cmd cmd_at_clir = true
is_call_cmd cmd_at_d = true
is_call_cmd cmd_at_cmgr = true
is_call_cmd cmd_at_clvl = true
is_call_cmd _ = false

unfoldable pub ok_switch : Env → AtCommand → Device → Next
unfolding ok_init ok_call is_call_cmd
ok_switch env last d =
    if is_call_cmd last.cmd then ok_call last.cmd last.obj d else ok_init env last.cmd d

-- `m_lastcmd->destruct(); m_lastcmd = 0;`
abbrev pub completed : Next → Device × ℤ
completed (d, fatal) = (record d { lastcmd = none }, if fatal then negsuc 0 else pos 0)

unfoldable pub is_res_ok : AtRes → Bool
is_res_ok res_ok = true
is_res_ok _ = false

unfoldable pub ok_last : Env → Option AtCommand → Device → Device × ℤ
unfolding is_res_ok ok_switch
ok_last env none d = (d, pos 0)
ok_last env (some last) d =
    if is_res_ok last.res then completed (ok_switch env last d) else (d, pos 0)

unfoldable pub at_response_ok : Env → Device → Device × ℤ
unfolding ok_last
at_response_ok env d = ok_last env d.lastcmd d
